-- ===== src/History.antt =====
-- providers/pydantic-ai-agent/pydantic_ai_agent/history.py: `with_thread_history`. What souk answers
-- to `thread_messages` is an argument, `none` for `SoukQueryFailed`.
pub mod Merged
mod Tests
use agent_souk_server.Base.{
  zero, ◌==◌, Bool, true, false, ◌&&◌, Option, none, some, List, [], ◌∷◌, ◌++◌, eqb, if◌then◌else◌,
}
use agent_souk_server.Base.Json.{
  ℤ, pos, negsuc, Float, whole, other, Json, null, bool, int, float, str, arr, obj, Fields, get,
  put, to_list, from_list, truthy, hashable,
}

-- The number that a value is for `==`: a `bool` is 0 or 1, and 3.0 is 3.
abbrev as_number : Json → Option Float
as_number (bool true) = some (whole (pos 1))
as_number (bool false) = some (whole (pos 0))
as_number (int i) = some (whole i)
as_number (float x) = some x
as_number _ = none

abbrev same_number : Option Float → Option Float → Bool
same_number (some (whole (pos m))) (some (whole (pos n))) = eqb m n
same_number (some (whole (negsuc m))) (some (whole (negsuc n))) = eqb m n
same_number (some (other m)) (some (other n)) = eqb m n
same_number _ _ = false

-- `==` of values that have a hash
abbrev pub same : Json → Json → Bool
same null null = true
same (str s) (str t) = s == t
same v w = same_number (as_number v) (as_number w)

abbrev pub is_seen : Json → List Json → Bool
is_seen v [] = false
is_seen v (w ∷ ws) = if same w v then true else is_seen v ws

abbrev add_id : Json → List Json → Option (List Json)
add_id id ids = if truthy id then (if hashable id then some (id ∷ ids) else none) else some ids

-- The ids of souk's messages. A message that is no dict, or whose id has no hash, raises: `none`.
abbrev pub seen_of : List Json → Option (List Json)
seen_of [] = some []
seen_of (obj m ∷ ms) =
    let rest = seen_of ms in elim rest [ none ↦ none | some ids ↦ add_id (get "id" m) ids ]
seen_of (_ ∷ ms) = none

abbrev pub keep_new : List Json → Fields → List Json → Option (List Json)
keep_new seen m ms =
    if hashable (get "id" m)
    then some (if is_seen (get "id" m) seen then ms else obj m ∷ ms)
    else none

abbrev pub tail_of : List Json → List Json → Option (List Json)
tail_of seen [] = some []
tail_of seen (obj m ∷ ms) =
    let rest = tail_of seen ms in elim rest [ none ↦ none | some new ↦ keep_new seen m new ]
tail_of seen (_ ∷ ms) = none

-- `run_input.get("messages") or []`, gone through as a list of messages.
abbrev pub own_messages : Json → Option (List Json)
own_messages (arr xs) = some (to_list xs)
own_messages v = if truthy v then none else some []

abbrev pub merged : Fields → List Json → List Json → Fields
merged run_input [] new = run_input
merged run_input (m ∷ ms) new = put "messages" (arr (from_list ((m ∷ ms) ++ new))) run_input

abbrev pub with_tail : Fields → List Json → Option (List Json) → Option Fields
with_tail run_input history none = none
with_tail run_input history (some new) = some (merged run_input history new)

abbrev pub with_own : Fields → List Json → List Json → Option (List Json) → Option Fields
with_own run_input history seen none = none
with_own run_input history seen (some own) = with_tail run_input history (tail_of seen own)

abbrev pub with_seen : Fields → List Json → Option (List Json) → Option Fields
with_seen run_input history none = none
with_seen run_input history (some seen) =
    with_own run_input history seen (own_messages (get "messages" run_input))

abbrev pub with_answer : Fields → Option (List Json) → Option Fields
with_answer run_input none = some run_input
with_answer run_input (some history) = with_seen run_input history (seen_of history)

-- `bool(limit)`, of an `int` or `None`: a negative count is true.
abbrev pub is_limited : Option ℤ → Bool
is_limited none = false
is_limited (some (pos zero)) = false
is_limited (some _) = true

-- `linked` is `souk.link is not None`.
abbrev pub is_asked : Fields → Bool → Option ℤ → Bool
is_asked run_input linked limit = is_limited limit && truthy (get "threadId" run_input) && linked

unfoldable pub with_thread_history : Fields → Bool → Option ℤ → Option (List Json) → Option Fields
with_thread_history run_input linked limit answer =
    if is_asked run_input linked limit then with_answer run_input answer else some run_input
