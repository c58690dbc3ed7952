-- ===== src/Server/Actions/Valid.antt =====
-- The server keeps one queue and one flag for each of the 16 channels.
use drivewire_rs.Prelude.{
  ℕ, suc, ◌≡◌, refl, ap, List, [], ◌∷◌, ◌++◌, arith, true, false, length, get_or,
}
use drivewire_rs.Prelude.Lists.{length-set}
use drivewire_rs.Server.State.{
  Server, new, vserial_channels, mount, unmount, push_vserial, drain_vserial, send_to_vserial,
  wait_vserial_inbox, set_channel_open, poll, pop_each, read_many,
}
use drivewire_rs.Server.Handlers.{extend_inbox}
use drivewire_rs.Server.Actions.{
  Action, write, write_many, poll_one, poll_many, open_channel, host_send, host_drain, host_wait,
  perform, perform_all,
}

pub record IsValid (s : Server) : Type 0 where
  pub inboxes : length s.vserial_inbox ≡ vserial_channels
  pub outboxes : length s.vserial_outbox ≡ vserial_channels
  pub flags : length s.vserial_open ≡ vserial_channels
  pub permits : length s.vserial_inbox_notify ≡ vserial_channels

length-poll : (idx : ℕ) (qs : List (List ℕ)) → length (poll idx qs).1 ≡ length qs
unfolding poll
length-poll idx [] = refl
length-poll idx ([] ∷ qs) = ap suc (length-poll (suc idx) qs)
length-poll idx ((b ∷ q) ∷ qs) = ground arith

length-read_many : (c n : ℕ) (qs : List (List ℕ)) → length (read_many c n qs).1 ≡ length qs
unfolding read_many
length-read_many c n qs = ground (arith, length-set qs c (pop_each n (get_or qs c [])).1)

pub perform-IsValid : (a : Action) (s : Server) → IsValid s → IsValid (perform a s)
unfolding perform push_vserial extend_inbox set_channel_open send_to_vserial drain_vserial
    wait_vserial_inbox mount unmount
perform-IsValid (write c b) s v = ground (
  arith,
  length-set s.vserial_inbox c (get_or s.vserial_inbox c [] ++ (b ∷ [])),
  length-set s.vserial_inbox_notify c true,
)
perform-IsValid (write_many c bs) s v =
    ground (arith, length-set s.vserial_inbox c (get_or s.vserial_inbox c [] ++ bs))
perform-IsValid poll_one s v = ground (arith, length-poll 0 s.vserial_outbox)
perform-IsValid (poll_many c n) s v = ground (arith, length-read_many c n s.vserial_outbox)
perform-IsValid (open_channel c flag) s v = ground (arith, length-set s.vserial_open c flag)
perform-IsValid (host_send c bs) s v =
    ground (arith, length-set s.vserial_outbox c (get_or s.vserial_outbox c [] ++ bs))
perform-IsValid (host_drain c) s v = ground (arith, length-set s.vserial_inbox c [])
perform-IsValid (host_wait c) s v = ground (arith, length-set s.vserial_inbox_notify c false)
perform-IsValid _ s v = ground arith

-- Whatever the tasks do, the server keeps exactly 16 inboxes, outboxes, open flags and permits.
pub perform_all-IsValid :
    (actions : List Action) (s : Server) → IsValid s → IsValid (perform_all actions s)
unfolding perform_all
perform_all-IsValid [] s v = v
perform_all-IsValid (a ∷ rest) s v = perform_all-IsValid rest (perform a s) (perform-IsValid a s v)

pub new-IsValid : IsValid new
new-IsValid = omega arith
