-- ===== src/Gateway/Wire/Writer.antt =====
-- `write_loop` of souk_server/ws_common.py, over the frames that the queue hands it in turn.
use agent_souk_server.Base.{
  ◌==◌, ◌≡◌, refl, Bool, true, false, Option, some, List, [], ◌∷◌, ◌++◌, All, Bool-cases, inl, inr,
}
use agent_souk_server.Base.Json.{Json, str, Fields, get, get_field}

-- How the task stands after those frames: it waits for more, it has closed the socket with a code
-- and a reason, or `frame["code"]` raised `KeyError`.
pub data Written : Type 0 where
  waiting : Written
  closes : Json → Json → Written
  key_error : Written

abbrev pub is_close : Json → Bool
is_close (str t) = t == "_close"
is_close _ = false

abbrev close_with : Option Json → Option Json → Written
close_with (some code) (some reason) = closes code reason
close_with _ _ = key_error

-- The frames sent, in order, and how the task stands.
unfoldable pub write_loop : List Fields → List Fields × Written
write_loop [] = ([], waiting)
write_loop (frame ∷ queue) = elim (is_close (get "type" frame)) [
  | true ↦ ([], close_with (get_field "code" frame) (get_field "reason" frame))
  | false ↦ let (sent, end_state) = write_loop queue in (frame ∷ sent, end_state)
]

abbrev pub IsPlain : Fields → Type 0
IsPlain frame = is_close (get "type" frame) ≡ false

-- Frames that are no close go out whole and in order, before whatever follows them.
pub write_loop-append :
    (xs ys : List Fields)
    → All IsPlain xs
    → write_loop (xs ++ ys) ≡ (xs ++ (write_loop ys).0, (write_loop ys).1)
unfolding write_loop
write_loop-append [] ys h = refl
write_loop-append (x ∷ xs) ys h = rw (h.0, write_loop, write_loop-append xs ys h.1)

-- Nothing that reaches the wire is the internal close frame.
pub write_loop-IsPlain : (xs : List Fields) → All IsPlain (write_loop xs).0
unfolding write_loop
write_loop-IsPlain [] = tt
write_loop-IsPlain (x ∷ xs) = elim (Bool-cases (is_close (get "type" x))) [
  | inl e ↦ rw (e, write_loop, All) tt
  | inr e ↦ rw (e, write_loop, All) (e, write_loop-IsPlain xs)
]
