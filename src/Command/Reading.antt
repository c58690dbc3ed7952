-- ===== src/Command/Reading.antt =====
-- `control_request` of crates/drivewire-cli/src/main.rs on a stream that brings a reply: what is behind its last
-- line is not read, be it more text or an error.
use drivewire_rs.Prelude.{[], ◌∷◌, ◌≡◌, refl, ap, ◌∙◌, true, Option, none, some, ◌++◌, ok}
use mathlib.Core.List.{append_assoc}
use drivewire_rs.Io.{IoKind}
use drivewire_rs.Text.{Text}
use drivewire_rs.Control.{line_feed}
use drivewire_rs.Control.Client.{read_lines, control_request}
use drivewire_rs.Control.Reply.{IsReply, last, more, read_lines-line, control_request-IsReply}
use drivewire_rs.Command.{is_full, ends, read_reply}

is_full-append : (l : Text) → is_full (l ++ line_feed) ≡ true
unfolding is_full
is_full-append [] = refl
is_full-append (c ∷ []) = refl
is_full-append (c ∷ d ∷ l) = is_full-append (d ∷ l)

ends-IsReply : (t rest : Text) → IsReply t → ends (read_lines (t ++ rest)) ≡ true
unfolding ends
ends-IsReply t rest (last l e h k) =
    rw (e, append_assoc l line_feed rest, read_lines-line l rest h, is_full-append l, k)
ends-IsReply t rest (more l u e h k r) =
    rw
      (
        e,
        append_assoc l (line_feed ++ u) rest,
        read_lines-line l (u ++ rest) h,
        is_full-append l,
        k,
      )
      (ends-IsReply u rest r)

pub read_reply_whole :
    (t rest : Text) (broken : Option IoKind)
    → IsReply t
    → read_reply (t ++ rest) broken ≡ ok (control_request (t ++ rest))
unfolding read_reply control_request
read_reply_whole t rest none r = refl
read_reply_whole t rest (some kind) r = rw (ends-IsReply t rest r) refl

-- The reply is what the client takes.
pub read_reply-IsReply :
    (t rest : Text) (broken : Option IoKind) → IsReply t → read_reply (t ++ rest) broken ≡ ok t
read_reply-IsReply t rest broken r =
    read_reply_whole t rest broken r ∙ ap ok (control_request-IsReply t rest r)
