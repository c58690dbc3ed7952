-- ===== src/Control/Reply.antt =====
-- What stands on the control socket: each reply is lines, of which the last, and no other, is terminal.
use drivewire_rs.Prelude.{
  ◌≡◌, refl, ◌∙◌, ap, Bool, true, false, List, [], ◌∷◌, ◌++◌, arith, ◌==◌, ltb, leb, ◌||◌, All,
  Bool-cases, if◌then◌else◌, inl, inr,
}
use mathlib.Core.List.{append_assoc}
use drivewire_rs.Text.{Text, chars}
use drivewire_rs.Text.Laws.{IsLine, is_line-append, decimal-IsLine}
use drivewire_rs.Control.{
  DriveRow, VserialRow, insert_row, sort_rows, line_feed, drive_line, vserial_line, drive_lines,
  vserial_lines,
}
use drivewire_rs.Control.Client.{prepend, read_lines, is_terminal, take_reply, control_request}

pub data IsReply : Text → Type 0 where
  last :
      {t : Text} (l : Text)
      → t ≡ l ++ line_feed
      → IsLine l
      → is_terminal (l ++ line_feed) ≡ true
      → IsReply t
  more :
      {t : Text} (l u : Text)
      → t ≡ l ++ (line_feed ++ u)
      → IsLine l
      → is_terminal (l ++ line_feed) ≡ false
      → IsReply u
      → IsReply t

pub read_lines-line :
    (l t : Text) → IsLine l → read_lines (l ++ (line_feed ++ t)) ≡ (l ++ line_feed) ∷ read_lines t
unfolding read_lines
read_lines-line [] t h = refl
read_lines-line (c ∷ l) t h = elim (Bool-cases (c == 0x0a)) [
  | inl e ↦ absurd (ground (arith, e, h))
  | inr e ↦ let k : IsLine l = ground (arith, h) in rw (e, read_lines-line l t k, prepend)
]

-- The client takes a reply whole, and nothing of what stands behind it.
pub control_request-IsReply : (t rest : Text) → IsReply t → control_request (t ++ rest) ≡ t
unfolding control_request take_reply
control_request-IsReply t rest (last l e h k) =
    rw (e, append_assoc l line_feed rest, read_lines-line l rest h, take_reply, k)
control_request-IsReply t rest (more l u e h k r) =
    rw (e, append_assoc l (line_feed ++ u) rest, read_lines-line l (u ++ rest) h, take_reply, k)
      (append_assoc l line_feed _
        ∙ ap (λ s. l ++ (line_feed ++ s)) (control_request-IsReply u rest r))

drive_line-IsLine : (row : DriveRow) → IsLine row.1 → IsLine (drive_line row)
unfolding drive_line
drive_line-IsLine (slot, name, sectors) h = simp (is_line-append, decimal-IsLine, h)

state_word : (b : Bool) → IsLine (if b then chars " open" else chars " closed")
state_word true = refl
state_word false = refl

vserial_line-IsLine : (row : VserialRow) → IsLine (vserial_line row)
unfolding vserial_line
vserial_line-IsLine (ch, is_open, inbox, outbox) =
    simp (is_line-append, decimal-IsLine, state_word is_open)

drive_line_quiet : (row : DriveRow) → is_terminal (drive_line row ++ line_feed) ≡ false
unfolding drive_line
drive_line_quiet (slot, name, sectors) = refl

vserial_line_quiet : (row : VserialRow) → is_terminal (vserial_line row ++ line_feed) ≡ false
unfolding vserial_line
vserial_line_quiet (ch, is_open, inbox, outbox) = refl

pub drive_lines-IsReply :
    (rows : List DriveRow) (t : Text)
    → All (λ row. IsLine row.1) rows
    → IsReply t
    → IsReply (drive_lines rows t)
unfolding drive_lines
drive_lines-IsReply [] t h r = r
drive_lines-IsReply (row ∷ rows) t (h, hs) r =
    more (drive_line row) (drive_lines rows t) refl (drive_line-IsLine row h) (drive_line_quiet row)
      (drive_lines-IsReply rows t hs r)

pub vserial_lines-IsReply :
    (rows : List VserialRow) (t : Text) → IsReply t → IsReply (vserial_lines rows t)
unfolding vserial_lines
vserial_lines-IsReply [] t r = r
vserial_lines-IsReply ((ch, is_open, inbox, outbox) ∷ rows) t r =
    elim (Bool-cases (is_open || (ltb 0 inbox || ltb 0 outbox))) [
      | inl e ↦ rw e (
          more (vserial_line (ch, is_open, inbox, outbox)) (vserial_lines rows t) refl
            (vserial_line-IsLine (ch, is_open, inbox, outbox))
            (vserial_line_quiet (ch, is_open, inbox, outbox)) (vserial_lines-IsReply rows t r))
      | inr e ↦ rw e (vserial_lines-IsReply rows t r)
    ]

module _ {κ} (P : DriveRow → Type κ) where
  pub insert_row-All :
      (row : DriveRow) (rows : List DriveRow) → P row → All P rows → All P (insert_row row rows)
  unfolding insert_row
  insert_row-All row [] p h = (p, tt)
  insert_row-All row (r ∷ rows) p (q, h) = elim (Bool-cases (leb row.0 r.0)) [
    | inl e ↦ rw e (p, (q, h))
    | inr e ↦ rw e (q, insert_row-All row rows p h)
  ]

  pub sort_rows-All : (rows : List DriveRow) → All P rows → All P (sort_rows rows)
  unfolding sort_rows
  sort_rows-All [] h = tt
  sort_rows-All (row ∷ rows) (p, h) = insert_row-All row (sort_rows rows) p (sort_rows-All rows h)
