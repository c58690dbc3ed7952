-- ===== src/Serve/Mounts.antt =====
-- What the --disk options mount: in each slot the disk that its option opens.
use mathlib.Core.Path.{subst}
use drivewire_rs.Prelude.{
  ℕ, zero, suc, ◌+◌, ◌<◌, ◌≡◌, refl, ◌∙◌, false, Option, none, some, List, [], ◌∷◌, Result, ok, err,
  arith, get_elem?,
}
use drivewire_rs.Text.{Text}
use drivewire_rs.Vdisk.{Directory, Files, DskFile, VDiskError, open_dsk}
use drivewire_rs.Server.State.{Server, get, mount}
use drivewire_rs.Control.{mount_opened, mount_dsk, serve_disks}
use drivewire_rs.Control.Serving.{get-insert_self, get-insert_ne}

module _ (directory : Directory) (files : Files) where
  -- The disk of a slot now, by its option and the disk that it held.
  abbrev pub IsChosen : Option (Option Text) → Option DskFile → Option DskFile → Type 0
  IsChosen none old now = now ≡ old
  IsChosen (some none) old now = now ≡ old
  IsChosen (some (some path)) old now =
      (d : DskFile) × (open_dsk directory files path false ≡ ok d) × (now ≡ some d)

  -- Each slot from `slot` on is as its option says, and those before are as they were.
  pub record Mounts (slot : ℕ) (options : List (Option Text)) (s s' : Server) : Type 0 where
    pub before : (j : ℕ) → j < slot → get j s'.drives ≡ get j s.drives
    pub at :
        (i : ℕ)
        → IsChosen (get_elem? options i) (get (slot + i) s.drives) (get (slot + i) s'.drives)

  -- The first option whose path cannot be opened.
  pub record Fails (options : List (Option Text)) (e : VDiskError) : Type 0 where
    pub index : ℕ
    pub path : Text
    pub option : get_elem? options index ≡ some (some path)
    pub error : open_dsk directory files path false ≡ err e
    pub earlier :
        (i : ℕ) (p : Text)
        → i < index
        → get_elem? options i ≡ some (some p)
        → (d : DskFile) × (open_dsk directory files p false ≡ ok d)

  abbrev pub Settled :
      ℕ → List (Option Text) → Server → Result VDiskError (Unit {0}) × Server → Type 0
  Settled slot options s (ok _, s') = Mounts slot options s s'
  Settled slot options s (err e, s') = Fails options e

  IsOpened : Text → Type 0
  IsOpened path = (d : DskFile) × (open_dsk directory files path false ≡ ok d)

  module _ (slot : ℕ) (rest : List (Option Text)) (s : Server) where
    at_none :
        (s' : Server) (m : Mounts (suc slot) rest s s') (i : ℕ)
        → IsChosen (get_elem? (none ∷ rest) i) (get (slot + i) s.drives) (get (slot + i) s'.drives)
    at_none s' m zero = m.before (slot + 0) (omega arith)
    at_none s' m (suc k) =
        let e : suc slot + k ≡ slot + suc k = omega arith in
        subst (λ n. IsChosen (get_elem? rest k) (get n s.drives) (get n s'.drives)) e (m.at k)

    earlier_cons :
        (o : Option Text)
        → ((p : Text) → o ≡ some p → IsOpened p)
        → (e : VDiskError) (f : Fails rest e) (i : ℕ) (p : Text) → i < suc f.index
        → get_elem? (o ∷ rest) i ≡ some (some p)
        → IsOpened p
    unfolding IsOpened
    earlier_cons o first e f zero p h q = first p (some_inj o p q)
      where
        some_inj : (o : Option Text) (p : Text) → some o ≡ some (some p) → o ≡ some p
        some_inj o p q = cc
    earlier_cons o first e f (suc i) p h q = f.earlier i p (omega arith) q

    Fails-cons :
        (o : Option Text)
        → ((p : Text) → o ≡ some p → IsOpened p)
        → (e : VDiskError) → Fails rest e
        → Fails (o ∷ rest) e
    unfolding IsOpened
    Fails-cons o first e f = record {
      index = suc f.index;
      path = f.path;
      option = f.option;
      error = f.error;
      earlier = earlier_cons o first e f;
    }

    Settled-none :
        (r : Result VDiskError (Unit {0}) × Server)
        → Settled (suc slot) rest s r
        → Settled slot (none ∷ rest) s r
    Settled-none (ok _, s') m = record {
      before = λ j h. m.before j (omega arith);
      at = at_none s' m;
    }
    Settled-none (err e, s') f = Fails-cons none (λ p q. cc) e f

    module _ (path : Text) (d : DskFile) (o : open_dsk directory files path false ≡ ok d) where
      at_some :
          (s' : Server) (m : Mounts (suc slot) rest (mount slot d s) s') (i : ℕ)
          → IsChosen
              (get_elem? (some path ∷ rest) i)
              (get (slot + i) s.drives)
              (get (slot + i) s'.drives)
      unfolding mount
      at_some s' m zero =
          let e : slot + 0 ≡ slot = omega arith in
          (d, o, rw e (m.before slot (omega arith) ∙ get-insert_self slot d s.drives))
      at_some s' m (suc k) =
          let e : suc slot + k ≡ slot + suc k = omega arith in
          let same =
            get-insert_ne slot (slot + suc k) d s.drives (λ q. absurd (omega (arith, q))) in
          subst (λ old. IsChosen (get_elem? rest k) old (get (slot + suc k) s'.drives)) same
            (subst
              (λ n. IsChosen (get_elem? rest k) (get n (mount slot d s).drives) (get n s'.drives)) e
              (m.at k))

      Settled-some :
          (r : Result VDiskError (Unit {0}) × Server)
          → Settled (suc slot) rest (mount slot d s) r
          → Settled slot (some path ∷ rest) s r
      unfolding mount IsOpened
      Settled-some (ok _, s') m = record {
        before = λ j h.
            m.before j (omega arith)
            ∙ get-insert_ne slot j d s.drives (λ q. absurd (omega (arith, q, h)));
        at = at_some s' m;
      }
      Settled-some (err e, s') f =
          Fails-cons (some path) (λ p q. let same : path ≡ p = cc in (d, rw (← same) o)) e f

  -- The rest of the loop behind a mount.
  abbrev loop_on :
      ℕ
      → List (Option Text)
      → Result VDiskError (ℕ × Text) × Server
      → Result VDiskError (Unit {0}) × Server
  loop_on slot rest r = elim r.0 [
    | err e ↦ (err e, r.1)
    | ok _ ↦ serve_disks directory files (suc slot) rest r.1
  ]

  loop_on-Settled :
      (slot : ℕ) (path : Text) (rest : List (Option Text)) (s : Server)
      → ((s' : Server)
          → Settled (suc slot) rest s' (serve_disks directory files (suc slot) rest s'))
      → (r : Result VDiskError DskFile) → open_dsk directory files path false ≡ r
      → Settled slot (some path ∷ rest) s (loop_on slot rest (mount_opened slot s r))
  loop_on-Settled slot path rest s ih (ok d) o =
      Settled-some slot rest s path d o
        (serve_disks directory files (suc slot) rest (mount slot d s)) (ih (mount slot d s))
  loop_on-Settled slot path rest s ih (err e) o = record {
    index = 0;
    path = path;
    option = refl;
    error = o;
    earlier = λ i p h. absurd (omega arith);
  }

  -- The loop over the --disk options either ends with the error of the first option whose path
  -- cannot be opened, or leaves in each slot from the first on the disk that its option opens, and
  -- whatever it held where there is no option.
  pub serve_disks-Settled :
      (slot : ℕ) (options : List (Option Text)) (s : Server)
      → Settled slot options s (serve_disks directory files slot options s)
  unfolding serve_disks mount_dsk
  serve_disks-Settled slot [] s = record { before = λ j h. refl; at = λ i. refl }
  serve_disks-Settled slot (none ∷ rest) s =
      Settled-none slot rest s (serve_disks directory files (suc slot) rest s)
        (serve_disks-Settled (suc slot) rest s)
  serve_disks-Settled slot (some path ∷ rest) s =
      loop_on-Settled slot path rest s (λ s'. serve_disks-Settled (suc slot) rest s')
        (open_dsk directory files path false) refl
