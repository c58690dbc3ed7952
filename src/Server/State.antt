-- ===== src/Server/State.antt =====
-- `struct Server` and the methods that change it under one lock. They are shared by the sessions,
-- the control socket and the attached clients.
pub mod Poll
pub mod Queues
use drivewire_rs.Prelude.{
  ℕ, zero, suc, ◌+◌, ◌≤◌, ◌<◌, Bool, true, false, Option, none, some, List, [], ◌∷◌, ◌++◌, min, ◌%◌,
  ltb, leb, ◌==◌, get_or, set, replicate, length, if◌then◌else◌,
}
use drivewire_rs.Vdisk.{DskFile}

abbrev pub vserial_channels : ℕ
vserial_channels = 16

-- `HashMap<u8, Arc<dyn VDisk>>`, whose only disks are `DskFile`s.
abbrev pub Drives : Type 0
Drives = List (ℕ × DskFile)

unfoldable pub get : ℕ → Drives → Option DskFile
get slot [] = none
get slot ((j, d) ∷ rest) = if j == slot then some d else get slot rest

unfoldable pub remove : ℕ → Drives → Drives
remove slot [] = []
remove slot ((j, d) ∷ rest) =
    let kept = remove slot rest in if j == slot then kept else (j, d) ∷ kept

unfoldable pub insert : ℕ → DskFile → Drives → Drives
unfolding remove
insert slot d drives = (slot, d) ∷ remove slot drives

-- `vserial_inbox_notify` holds, for each channel, whether its `Notify` stores a permit.
pub record Server : Type 0 where
  pub drives : Drives
  pub print_buffer : List ℕ
  pub vserial_inbox : List (List ℕ)
  pub vserial_outbox : List (List ℕ)
  pub vserial_open : List Bool
  pub vserial_inbox_notify : List Bool

-- `Server::new`
abbrev pub new : Server
new = record {
  drives = [];
  print_buffer = [];
  vserial_inbox = replicate vserial_channels [];
  vserial_outbox = replicate vserial_channels [];
  vserial_open = replicate vserial_channels false;
  vserial_inbox_notify = replicate vserial_channels false;
}

unfoldable pub mount : ℕ → DskFile → Server → Server
unfolding insert
mount slot disk s = record s { drives = insert slot disk s.drives }

unfoldable pub unmount : ℕ → Server → Server
unmount slot s = record s { drives = remove slot s.drives }

-- Bytes appended to the queue of one channel.
abbrev pub extend : List (List ℕ) → ℕ → List ℕ → List (List ℕ)
extend queues idx bytes = set queues idx (get_or queues idx [] ++ bytes)

-- A guest's byte joins the inbox, and a waiting reader is woken.
unfoldable pub push_vserial : ℕ → ℕ → Server → Server
push_vserial channel byte s = if leb vserial_channels channel then s else record s {
  vserial_inbox = extend s.vserial_inbox channel (byte ∷ []);
  vserial_inbox_notify = set s.vserial_inbox_notify channel true;
}

-- The bytes that waited in the inbox, and the server without them.
unfoldable pub drain_vserial : ℕ → Server → List ℕ × Server
drain_vserial channel s = if leb vserial_channels channel then ([], s) else (
  get_or s.vserial_inbox channel [],
  record s { vserial_inbox = set s.vserial_inbox channel [] },
)

unfoldable pub send_to_vserial : ℕ → List ℕ → Server → Server
send_to_vserial channel bytes s =
    if leb vserial_channels channel
    then s
    else record s { vserial_outbox = extend s.vserial_outbox channel bytes }

unfoldable pub vserial_outbox_len : ℕ → Server → ℕ
vserial_outbox_len channel s =
    if leb vserial_channels channel then 0 else length (get_or s.vserial_outbox channel [])

-- `wait_vserial_inbox`: `none` is a task that stays asleep; else the permit is used up.
unfoldable pub wait_vserial_inbox : ℕ → Server → Option Server
wait_vserial_inbox channel s =
    if leb vserial_channels channel
    then none
    else if get_or s.vserial_inbox_notify channel false
    then some (record s { vserial_inbox_notify = set s.vserial_inbox_notify channel false })
    else none

unfoldable pub set_channel_open : ℕ → Bool → Server → Server
set_channel_open channel flag s =
    if leb vserial_channels channel
    then s
    else record s { vserial_open = set s.vserial_open channel flag }

unfoldable pub is_channel_open : ℕ → Server → Bool
is_channel_open channel s =
    if leb vserial_channels channel then false else get_or s.vserial_open channel false

-- The loop of `handle_serread` over the outboxes from index `idx` on: the two bytes of the reply, and
-- the outboxes that it leaves.
unfoldable pub poll : ℕ → List (List ℕ) → List ℕ × List (List ℕ)
poll idx [] = (0x00 ∷ 0x00 ∷ [], [])
poll idx ([] ∷ qs) = let (reply, rest) = poll (suc idx) qs in (reply, [] ∷ rest)
poll idx ((byte ∷ q) ∷ qs) =
    if ltb (length (byte ∷ q)) 3
    then ((0x01 + idx % 256) ∷ byte ∷ [], q ∷ qs)
    else ((0x11 + idx % 256) ∷ min (length (byte ∷ q)) 255 ∷ [], (byte ∷ q) ∷ qs)

-- The loop of `handle_serreadm`: so many bytes popped off a queue, zeros where it has run out.
unfoldable pub pop_each : ℕ → List ℕ → List ℕ × List ℕ
pop_each zero q = ([], q)
pop_each (suc n) [] = let (bytes, rest) = pop_each n [] in (0 ∷ bytes, rest)
pop_each (suc n) (byte ∷ q) = let (bytes, rest) = pop_each n q in (byte ∷ bytes, rest)

-- What `handle_serreadm` sends, and the outboxes that it leaves.
unfoldable pub read_many : ℕ → ℕ → List (List ℕ) → List ℕ × List (List ℕ)
unfolding pop_each
read_many channel count queues =
    if ltb channel vserial_channels
    then (let (bytes, rest) = pop_each count (get_or queues channel []) in
        (bytes, set queues channel rest))
    else (replicate count 0, queues)
