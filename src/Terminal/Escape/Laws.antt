-- ===== src/Terminal/Escape/Laws.antt =====
-- What can be sent through the escape key, and what leaves.
use mathlib.Core.List.{append-nil, append_assoc, flatten}
use drivewire_rs.Prelude.{
  ℕ, ◌≡◌, refl, Bool, false, List, [], ◌∷◌, ◌++◌, ◌==◌, if◌then◌else◌, arith,
}
use drivewire_rs.Terminal.Escape.{
  continue, exit, ctrl_a, process_input_byte, process_chunk, stdin_to_sock,
}

-- The keys that send these bytes.
unfoldable keys : List ℕ → List ℕ
keys [] = []
keys (b ∷ bytes) = let rest = keys bytes in if b == ctrl_a then ctrl_a ∷ ctrl_a ∷ rest else b ∷ rest

-- Behind the keys of some bytes, the output is these bytes and then that of the rest.
process_chunk-keys :
    (bytes more : List ℕ)
    → process_chunk (keys bytes ++ more) false
      ≡ (let (out, armed, next) = process_chunk more false in (bytes ++ out, armed, next))
unfolding process_chunk keys
process_chunk-keys [] more = refl
process_chunk-keys (b ∷ bytes) more = ground (arith, process_chunk-keys bytes more)

-- A chunk cut in two: an exit in the first part ends both.
process_chunk-append :
    (xs ys : List ℕ) (armed : Bool)
    → process_chunk (xs ++ ys) armed ≡ (
        let (out, armed', next) = process_chunk xs armed in
        let (more, armed'', next') = process_chunk ys armed' in
        elim next [ exit ↦ (out, armed', exit) | continue ↦ (out ++ more, armed'', next') ])
unfolding process_chunk
process_chunk-append [] ys armed = refl
process_chunk-append (b ∷ xs) ys armed =
    let (out, armed', next) = process_input_byte b armed in
    ground (
      arith,
      process_chunk-append xs ys armed',
      append_assoc out (process_chunk xs armed').0 (process_chunk ys (process_chunk xs armed').1).0,
    )

-- However the standard input is cut into reads, the bytes sent to the socket, and whether the user
-- leaves, are those of the whole input.
pub stdin_to_sock-flatten :
    (chunks : List (List ℕ)) (armed : Bool)
    → stdin_to_sock chunks armed
      ≡ (let (out, _, next) = process_chunk (flatten chunks) armed in (out, next))
unfolding stdin_to_sock flatten
stdin_to_sock-flatten [] armed = unfold process_chunk in refl
stdin_to_sock-flatten (chunk ∷ chunks) armed = ground (
  arith,
  process_chunk-append chunk (flatten chunks) armed,
  stdin_to_sock-flatten chunks (process_chunk chunk armed).1,
)

-- Any bytes can be sent, with each Ctrl-A typed twice, and Ctrl-A q typed behind them leaves,
-- whatever follows.
keys_then_quit :
    (bytes more : List ℕ)
    → (process_chunk (keys bytes) false ≡ (bytes, false, continue))
      × (process_chunk (keys bytes ++ (ctrl_a ∷ b'q' ∷ more)) false ≡ (bytes, false, exit))
unfolding process_chunk
keys_then_quit bytes more = (
  ground (arith, append-nil (keys bytes), append-nil bytes, process_chunk-keys bytes []),
  ground (arith, append-nil bytes, process_chunk-keys bytes (ctrl_a ∷ b'q' ∷ more)),
)
