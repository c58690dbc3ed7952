-- ===== src/Serve/Laws.antt =====
-- How `dw serve` on a serial port ends: with the error of its session, over what the line brought.
use mathlib.Core.Path.{subst}
use drivewire_rs.Prelude.{
  ℕ, ◌<◌, ◌≡◌, refl, sym, ap, ◌∙◌, Bool-cases, inl, inr, none, some, ok, arith, ltb, length, drop,
}
use drivewire_rs.Prelude.Lists.{length-drop}
use drivewire_rs.Io.{unexpected_eof}
use drivewire_rs.Io.Reads.{Reads, brought}
use drivewire_rs.Text.{Text}
use drivewire_rs.Control.{serve_disks}
use drivewire_rs.Serial.{BlockingSerial, opened}
use drivewire_rs.Serial.Laws.{pending, pending-opened}
use drivewire_rs.Serial.Open.{Table, open_port}
use drivewire_rs.Serial.Drain.{drain_serial, drain_serial-pending}
use drivewire_rs.Server.State.{Server, new}
use drivewire_rs.Server.Session.{World, ServerError, eof, io}
use drivewire_rs.Server.Run.Ending.{IsWhole, run-Ends}
use drivewire_rs.Transport.{from_io, open_serial}
use drivewire_rs.Serve.{
  ServeArgs, Host, Served, session_error, port_wire, drained, ended, serve_serial, serve_on,
  mounted, disk_options, serve,
}

-- The session's error, with the bytes of the line that it was over: all but a number of stale ones, none
-- without a window.
pub record SerialEnds (args : ServeArgs) (reads : Reads) (out : Served) : Type 0 where
  pub stale : ℕ
  pub error : ServerError
  pub last : World
  pub returned : out ≡ session_error error last
  pub unread : args.drain_ms ≡ 0 → stale ≡ 0
  pub whole : IsWhole (drop stale (brought reads)) → error ≡ eof
  pub broken : ¬ IsWhole (drop stale (brought reads)) → error ≡ io unexpected_eof

-- What is left of the line behind the drain.
record Left (args : ServeArgs) (reads : Reads) (port : BlockingSerial) : Type 0 where
  stale : ℕ
  left : pending port ≡ drop stale (brought reads)
  unread : args.drain_ms ≡ 0 → stale ≡ 0

drained-Left :
    (host : Host) (args : ServeArgs) (reads : Reads)
    → Left args reads (drained host args (opened reads))
unfolding drained
drained-Left host args reads = elim (Bool-cases (ltb 0 args.drain_ms)) [
  | inl e ↦
      rw (drained, e)
        (record {
          stale = (drain_serial (host.passes args.drain_ms) (opened reads)).0;
          left = drain_serial-pending reads (host.passes args.drain_ms);
          unread = λ z. absurd (ground arith);
        })
  | inr e ↦ rw (drained, e) (record { stale = 0; left = pending-opened reads; unread = λ _. refl })
]

serve_serial-SerialEnds :
    (fuel : ℕ) (host : Host) (args : ServeArgs) (s : Server) (reads : Reads)
    → length (brought reads) < fuel
    → SerialEnds args reads (serve_serial fuel host args s (ok (opened reads)))
unfolding serve_serial ended
serve_serial-SerialEnds fuel host args s reads h =
    let l = drained-Left host args reads in
    let w : World = record {
      server = s;
      files = host.files;
      wire = port_wire (drained host args (opened reads));
      clock = host.clock;
    } in
    let size = length-drop l.stale (brought reads) in
    let e = run-Ends fuel w refl (omega (arith, ap length l.left, size)) in
    record {
      stale = l.stale;
      error = e.error;
      last = e.last;
      returned = ap ended e.returns;
      unread = l.unread;
      whole = λ wh. e.whole (rw l.left wh);
      broken = λ no. e.broken (λ wh. no (rw (← l.left) wh));
    }

-- If the disks of dw serve open, its port opens, and it has fuel for one turn more than the line
-- brings bytes, the command ends with the error of its session, over the bytes of the line but a
-- number of stale ones, which is 0 without a drain window: Eof if these are whole commands, and the
-- error of a short read if they are not.
pub serve-SerialEnds :
    (fuel : ℕ) (host : Host) (args : ServeArgs) (table : Table) (dev : Text) (s : Server)
    (reads : Reads)
    → args.serial ≡ some dev
    → args.tcp ≡ none
    → serve_disks host.directory host.files 0 (disk_options args) new ≡ (ok tt, s)
    → (open_port (host.device dev args.baud) table).0 ≡ ok (opened reads)
    → length (brought reads) < fuel
    → SerialEnds args reads (serve fuel host args table)
unfolding serve mounted serve_on open_serial from_io
serve-SerialEnds fuel host args table dev s reads serial tcp disks port h =
    subst (λ out. SerialEnds args reads out)
      (sym (
        ap (mounted (λ t. serve_on fuel host args table args.serial args.tcp t)) disks
        ∙ ap (λ o. serve_on fuel host args table o args.tcp s) serial
        ∙ ap (λ o. serve_on fuel host args table (some dev) o s) tcp
        ∙ ap (λ r. serve_serial fuel host args s (from_io r)) port))
      (serve_serial-SerialEnds fuel host args s reads h)
