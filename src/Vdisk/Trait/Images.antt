-- ===== src/Vdisk/Trait/Images.antt =====
-- The mounted images of crates/drivewire-vdisk/src/lib.rs through the trait, in any sequence of calls.
use drivewire_rs.Prelude.{ℕ, ◌≡◌, refl, Option, none, some, List, [], ◌∷◌, get_elem?, All}
use drivewire_rs.Vdisk.{DskFile, Files}
use drivewire_rs.Vdisk.Trait.{contents_of, Request}
use drivewire_rs.Vdisk.Trait.Dsk.{as_disk, AllOpen, dsk-Contract}
use drivewire_rs.Vdisk.Trait.Traces.{
  Handle, calls, abstract_calls, IsWhole, IsServed, Agrees, calls-Agrees,
}

-- The calls of disks that are given by their place among the images; a place that is empty is skipped.
abbrev pub through_one :
    Option DskFile → Request → List (Handle × Request) → List (Handle × Request)
through_one none r rest = rest
through_one (some d) r rest = ((as_disk d, d.file), r) ∷ rest

unfoldable pub through : List DskFile → List (ℕ × Request) → List (Handle × Request)
through images [] = []
through images ((i, r) ∷ run) = through_one (get_elem? images i) r (through images run)

through_one-IsServed :
    (images : List DskFile) (i : ℕ) (found : Option DskFile) (r : Request)
    (rest : List (Handle × Request))
    → get_elem? images i ≡ found
    → IsWhole r
    → All (IsServed (AllOpen images)) rest
    → All (IsServed (AllOpen images)) (through_one found r rest)
through_one-IsServed images i none r rest e w h = h
through_one-IsServed images i (some d) r rest e w h = ((dsk-Contract images i d e, w), h)

through-IsServed :
    (images : List DskFile) (run : List (ℕ × Request))
    → All (λ op. IsWhole op.1) run
    → All (IsServed (AllOpen images)) (through images run)
unfolding through
through-IsServed images [] w = tt
through-IsServed images ((i, r) ∷ run) w =
    through_one-IsServed images i (get_elem? images i) r (through images run) refl w.0
      (through-IsServed images run w.1)

-- For open images, some of which may be on one file or not to be written: any sequence of reads and
-- of writes of whole sectors, through any of them, is answered as by arrays of sectors that the
-- handles of one file share, with an out-of-range error from a handle's count on and a read-only
-- error where it may not write; the sectors of all files end as those of the arrays, and the images
-- are open still.
pub images-Agrees :
    (images : List DskFile) (run : List (ℕ × Request)) (files : Files)
    → All (λ op. IsWhole op.1) run
    → AllOpen images files
    → Agrees
        (AllOpen images)
        (calls (through images run) files)
        (abstract_calls (through images run) (contents_of files))
images-Agrees images run files w g =
    calls-Agrees (AllOpen images) (through images run) files (through-IsServed images run w) g
