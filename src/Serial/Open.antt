-- ===== src/Serial/Open.antt =====
-- `open` of crates/drivewire-transport/src/blocking_serial.rs: the descriptors that it takes and gives back.
-- What the operating system answers to its calls is an argument.
use drivewire_rs.Prelude.{
  ℕ, ◌≡◌, ◌≢◌, refl, ap, ◌∙◌, Option, none, some, List, [], ◌∷◌, Result, ok, err, ◌==◌, ==_iff,
  Bool-cases, inl, inr, if◌then◌else◌, All,
}
use drivewire_rs.Io.{IoKind}
use drivewire_rs.Io.Reads.{Reads}
use drivewire_rs.Serial.{BlockingSerial, opened}

-- `path`: an error if the path is not UTF-8 or has a zero byte. `open_device`, which is `libc::open`, and `dup` give a new descriptor.
-- `configure_termios` may fail; what the call that raises DTR and RTS returns is not looked at. `reads`: what
-- the reader thread's calls will return.
pub record Calls : Type 0 where
  pub path : Option IoKind
  pub open_device : Result IoKind ℕ
  pub configure_termios : Option IoKind
  pub dup : Result IoKind ℕ
  pub reads : Reads

-- The open descriptors of the process.
abbrev pub Table : Type 0
Table = List ℕ

unfoldable pub close : ℕ → Table → Table
close fd [] = []
close fd (x ∷ table) = let rest = close fd table in if x == fd then rest else x ∷ rest

abbrev pub Opening : Type 0
Opening = Result IoKind BlockingSerial × Table

-- The second descriptor, and the threads.
unfoldable pub duplicated : Calls → ℕ → Result IoKind ℕ → Table → Opening
unfolding close
duplicated calls fd (err kind) table = (err kind, close fd table)
duplicated calls fd (ok write_fd) table = (ok (opened calls.reads), write_fd ∷ table)

unfoldable pub configured : Calls → ℕ → Option IoKind → Table → Opening
unfolding close duplicated
configured calls fd (some kind) table = (err kind, close fd table)
configured calls fd none table = duplicated calls fd calls.dup table

unfoldable pub opened_at : Calls → Result IoKind ℕ → Table → Opening
unfolding configured
opened_at calls (err kind) table = (err kind, table)
opened_at calls (ok fd) table = configured calls fd calls.configure_termios (fd ∷ table)

unfoldable pub open_port : Calls → Table → Opening
unfolding opened_at
open_port calls table = elim calls.path [
  | some kind ↦ (err kind, table)
  | none ↦ opened_at calls calls.open_device table
]

-- The descriptor that a call gave, if it gave one.
abbrev pub given : Result IoKind ℕ → List ℕ
given (ok fd) = fd ∷ []
given (err kind) = []

-- A descriptor that is not open.
abbrev pub IsFresh : ℕ → Table → Type 0
IsFresh fd table = All (λ x. x ≢ fd) table

close_fresh : (fd : ℕ) (table : Table) → IsFresh fd table → close fd table ≡ table
unfolding close
close_fresh fd [] h = refl
close_fresh fd (x ∷ table) (n, h) = elim (Bool-cases (x == fd)) [
  | inl e ↦ absurd (n ((==_iff x fd).0 e))
  | inr e ↦ rw (close, e) (ap (λ t. x ∷ t) (close_fresh fd table h))
]

close-cons : (fd : ℕ) (table : Table) → IsFresh fd table → close fd (fd ∷ table) ≡ table
unfolding close
close-cons fd table h = rw (close, (==_iff fd fd).1 refl) (close_fresh fd table h)

-- What `open_port` leaves of the descriptors: those of the two threads behind a success, each of which closes its
-- own, and none behind an error.
abbrev pub Balanced : Calls → Table → Opening → Type 0
Balanced calls table (err kind, table') = table' ≡ table
Balanced calls table (ok port, table') =
    (read_fd : ℕ) × (write_fd : ℕ) × (calls.open_device ≡ ok read_fd)
    × (calls.dup ≡ ok write_fd)
    × (port ≡ opened calls.reads)
    × (close read_fd (close write_fd table') ≡ table)

duplicated-Balanced :
    (calls : Calls) (fd : ℕ) (table : Table) (dup : Result IoKind ℕ)
    → calls.open_device ≡ ok fd
    → calls.dup ≡ dup
    → IsFresh fd table
    → All (λ write_fd. IsFresh write_fd (fd ∷ table)) (given dup)
    → Balanced calls table (duplicated calls fd dup (fd ∷ table))
unfolding duplicated
duplicated-Balanced calls fd table (err kind) e d h k = close-cons fd table h
duplicated-Balanced calls fd table (ok write_fd) e d h k = (
  fd,
  write_fd,
  e,
  d,
  refl,
  ap (close fd) (close-cons write_fd (fd ∷ table) k.0) ∙ close-cons fd table h,
)

configured-Balanced :
    (calls : Calls) (fd : ℕ) (table : Table) (termios : Option IoKind)
    → calls.open_device ≡ ok fd
    → IsFresh fd table
    → All (λ write_fd. IsFresh write_fd (fd ∷ table)) (given calls.dup)
    → Balanced calls table (configured calls fd termios (fd ∷ table))
unfolding configured
configured-Balanced calls fd table (some kind) e h k = close-cons fd table h
configured-Balanced calls fd table none e h k =
    duplicated-Balanced calls fd table calls.dup e refl h k

-- New descriptors are ones that are not open.
abbrev pub GivesFresh : Calls → Table → Type 0
GivesFresh calls table =
    All (λ fd. IsFresh fd table × All (λ write_fd. IsFresh write_fd (fd ∷ table)) (given calls.dup))
      (given calls.open_device)

opened_at-Balanced :
    (calls : Calls) (table : Table) (device : Result IoKind ℕ)
    → calls.open_device ≡ device
    → All
        (λ fd. IsFresh fd table × All (λ write_fd. IsFresh write_fd (fd ∷ table)) (given calls.dup))
        (given device)
    → Balanced calls table (opened_at calls device table)
unfolding opened_at
opened_at-Balanced calls table (err kind) e h = refl
opened_at-Balanced calls table (ok fd) e h =
    configured-Balanced calls fd table calls.configure_termios e h.0.0 h.0.1

path-Balanced :
    (calls : Calls) (table : Table) (path : Option IoKind)
    → GivesFresh calls table
    → calls.path ≡ path
    → Balanced calls table (open_port calls table)
unfolding open_port
path-Balanced calls table (some kind) h e = rw (open_port, e) refl
path-Balanced calls table none h e =
    rw (open_port, e) (opened_at-Balanced calls table calls.open_device refl h)

-- Where the calls give descriptors that are not open, open leaves the table of descriptors as it was
-- if it fails, whichever call does; and if it succeeds, the two descriptors that its threads close
-- give the old table back.
pub open_port-Balanced :
    (calls : Calls) (table : Table)
    → GivesFresh calls table
    → Balanced calls table (open_port calls table)
open_port-Balanced calls table h = path-Balanced calls table calls.path h refl
