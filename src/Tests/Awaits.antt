-- ===== src/Tests/Awaits.antt =====
-- Two guests on one server, interrupted at their awaits.
use drivewire_rs.Prelude.{
  ℕ, zero, suc, ◌<◌, length, ◌≡◌, refl, sym, subst, inl, none, some, [], ◌∷◌, ◌++◌, arith, All,
  IsByte, IsBytes, replicate,
}
use drivewire_rs.Prelude.Bytes.{replicate-All}
use drivewire_rs.Io.{read_exact, write_all}
use drivewire_rs.Proto.Opcode.{from_byte, try_from}
use drivewire_rs.Proto.Checksum.{checksum16}
use drivewire_rs.Proto.Lsn.{from_be3}
use drivewire_rs.Vdisk
use drivewire_rs.Server.State.{get, new}
use drivewire_rs.Server.Actions.{host_send, unmount_disk, perform}
use drivewire_rs.Server.Session.{World, from_be2, to_be2, gets, ◌>>=◌, receive, send}
use drivewire_rs.Server.Run.{receive_opcode}
use drivewire_rs.Server.Awaits.{stop, or_zeros, await, body}
use drivewire_rs.Server.Awaits.Tasks.{
  Tasks, fresh, poll_task, polls, Interleaves, polled, acted, here, then,
}
use drivewire_rs.Server.Awaits.Whole.{whole, Turns, outside}
use drivewire_rs.Server.Awaits.Atomic.{IsBetween, streams, Interleaves-Turns}
use drivewire_rs.Server.Awaits.Anytime.{Runs, moved, acted_anytime, AreSound, Runs-AreSound}
use drivewire_rs.Server.Awaits.Late.{to_write, write-polls, write_outlives}
use drivewire_rs.Vdisk.{Sector}
use drivewire_rs.Server.Handlers.{write_status}
use drivewire_rs.Server.Awaits.Stale.{asked, at_place, read_outlives}
use drivewire_rs.Server.Awaits.Ending.{Rests, head-Rests}
use drivewire_rs.Server.Awaits.{head}
use drivewire_rs.Tests.Fixtures.{world, image, files, server, clock, quiet}

-- One guest with an OP_READ to read, and one with a poll.
abbrev two_tasks : Tasks
two_tasks = record {
  server = server;
  files = files;
  clock = clock;
  processes =
      fresh (record quiet { input = 0x52 ∷ 0 ∷ 0 ∷ 0 ∷ 1 ∷ [] })
      ∷ fresh (record quiet { input = 0x43 ∷ [] })
      ∷ [];
}

-- The reader is interrupted once it holds its disk; then a client sends, and the other guest polls.
abbrev held : Tasks
held = polls 4 0 two_tasks

abbrev sent_to_held : Tasks
sent_to_held = record held { server = perform (host_send 2 (7 ∷ [])) held.server }

abbrev both_done : Tasks
both_done = polls 3 0 (polls 4 1 sent_to_held)

first_four : Interleaves two_tasks held
unfolding polls
first_four = then (polled _ 0) (then (polled _ 0) (then (polled _ 0) (then (polled _ 0) (here _))))

all_steps : Interleaves two_tasks both_done
unfolding polls
all_steps = then (polled _ 0) (
    then (polled _ 0) (
      then (polled _ 0) (
        then (polled _ 0) (
          then (acted held (host_send 2 (7 ∷ [])) (omega arith, tt) (inl tt)) (
            then (polled _ 1) (
              then (polled _ 1) (
                then (polled _ 1) (
                  then (polled _ 1)
                    (then (polled _ 0) (then (polled _ 0) (then (polled _ 0) (here _))))))))))))

both_done-IsBetween : All IsBetween both_done.processes
unfolding polls poll_task await gets ◌>>=◌ receive_opcode receive read_exact body from_byte try_from
    get send write_all
both_done-IsBetween = (refl, (refl, tt))

Interleaves-Turns_example :
    Turns
      (outside all_steps)
      (whole two_tasks (streams two_tasks))
      (whole both_done (streams both_done))
Interleaves-Turns_example = Interleaves-Turns all_steps (refl, (refl, tt)) both_done-IsBetween

-- The first guest's disk is unmounted while its session holds it, and read then.
unmounted_under :
    Runs two_tasks (polls 3 0 (record held { server = perform (unmount_disk 0) held.server }))
unfolding polls
unmounted_under = Runs.then (moved (polled _ 0)) (
    Runs.then (moved (polled _ 0)) (
      Runs.then (moved (polled _ 0)) (
        Runs.then (moved (polled _ 0)) (
          Runs.then (acted_anytime held (unmount_disk 0) tt) (
            Runs.then (moved (polled _ 0))
              (Runs.then (moved (polled _ 0)) (Runs.then (moved (polled _ 0)) (Runs.here _))))))))

two_tasks-AreSound : AreSound two_tasks
two_tasks-AreSound = record {
  server = record {
    valid = record { inboxes = refl; outboxes = refl; flags = refl; permits = refl };
    inboxes = replicate-All IsBytes 16 [] tt;
    outboxes = replicate-All IsBytes 16 [] tt;
    printed = tt;
  };
  distinct = omega arith;
  files = λ id. replicate-All IsByte 512 7 (omega arith);
  clock = (omega arith, (omega arith, (omega arith, (omega arith, (omega arith, tt)))));
  processes = (
    (tt, (omega arith, (omega arith, (omega arith, (omega arith, (omega arith, tt))))), tt),
    ((tt, (omega arith, tt), tt), tt),
  );
}

Runs-AreSound_example :
    AreSound (polls 3 0 (record held { server = perform (unmount_disk 0) held.server }))
Runs-AreSound_example = Runs-AreSound unmounted_under two_tasks-AreSound

-- The disk is unmounted while the reader holds it.
abbrev reader : Tasks
reader = record two_tasks { processes = none ∷ [] }

abbrev unmounted : Tasks
unmounted =
    let t = polls 4 0 (asked 0 0 0 0 1 [] quiet reader image) in
    record t { server = perform (unmount_disk 0) t.server }

unmounted_there : 0 < length unmounted.processes
unfolding polls poll_task await gets ◌>>=◌ receive_opcode receive read_exact body from_byte try_from
    get
unmounted_there = omega arith

image_there : get 0 reader.server.drives ≡ some image
unfolding get
image_there = refl

read_outlives_example :
    let sector = or_zeros (Vdisk.read image (from_be3 0 0 1) unmounted.files) in
    polls 3 0 unmounted
    ≡ at_place 0 unmounted stop
        (record quiet { input = []; output = [] ++ (sector ++ to_be2 (checksum16 sector)) })
read_outlives_example =
    read_outlives 0 0 0 0 1 [] quiet reader image unmounted (omega arith) image_there refl
      unmounted_there refl

-- So it is while a writer holds it, with a sector of zeros to write.
abbrev zeros : Sector
zeros = replicate 256 0

abbrev writer_unmounted : Tasks
writer_unmounted =
    let t = polls 6 0 (to_write 0 0 0 0 1 0 0 zeros [] quiet reader image) in
    record t { server = perform (unmount_disk 0) t.server }

zeros_sum : from_be2 0 0 ≡ checksum16 zeros
unfolding checksum16
zeros_sum = refl

writer_there : 0 < length writer_unmounted.processes
writer_there =
    subst (λ t. 0 < length t.processes)
      (sym (
        write-polls 0 0 0 0 1 0 0 zeros [] quiet reader image (omega arith) refl zeros_sum
          image_there))
      (omega arith)

write_outlives_example :
    let (r, files) = Vdisk.write image (from_be3 0 0 1) zeros writer_unmounted.files in
    polls 2 0 writer_unmounted
    ≡ at_place 0
        (record writer_unmounted { files = files })
        stop
        (record quiet { input = []; output = [] ++ (write_status r ∷ []) })
write_outlives_example =
    write_outlives 0 0 0 0 1 0 0 zeros [] quiet reader image writer_unmounted (omega arith) refl
      zeros_sum image_there refl writer_there refl

-- A READEX, each of whose awaits meets another server.
abbrev changing : ℕ → World
changing zero = world
changing (suc n) = record world { server = new }

head-Rests_example :
    Rests changing 7
      (some (record { rest = head; wire = record quiet { input = 0xd2 ∷ 0 ∷ 0 ∷ 0 ∷ 1 ∷ [] } }))
head-Rests_example = head-Rests changing (record quiet { input = 0xd2 ∷ 0 ∷ 0 ∷ 0 ∷ 1 ∷ [] })
