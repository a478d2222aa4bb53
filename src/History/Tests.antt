-- ===== src/History/Tests.antt =====
-- The theorem on the merged input at a short thread.
use agent_souk_server.History.{with_thread_history}
use agent_souk_server.History.Merged.{IsMessage, Shows, with_thread_history-merges}
use agent_souk_server.Base.{String, ◌≡◌, refl, inl, inr, true, some, List, [], ◌∷◌}
use agent_souk_server.Base.Json.{pos, Json, str, arr, obj, nil, cons, Fields, end, field}

abbrev message : String → Json
message id = obj (field "id" (str id) (field "role" (str "user") end))

abbrev input : Fields
input =
    field "threadId" (str "t1")
      (field "messages" (arr (cons (message "m2") (cons (message "m3") nil))) end)

abbrev output : Fields
output = field "threadId" (str "t1") (
    field "messages" (arr (cons (message "m1") (cons (message "m2") (cons (message "m3") nil))))
      end)

abbrev thread : List Json
thread = message "m1" ∷ message "m2" ∷ []

is_message : (id : String) → IsMessage (message id)
is_message id = record { fields = _; is_dict = refl; id = inr (id, refl) }

merges : with_thread_history input true (some (pos 20)) (some thread) ≡ some output
unfolding with_thread_history
merges = refl

with_thread_history-merges_example :
    (out : Fields) × (with_thread_history input true (some (pos 20)) (some thread) ≡ some out)
    × Shows thread input out
with_thread_history-merges_example =
    with_thread_history-merges input (inl (cons (message "m2") (cons (message "m3") nil), refl))
      (is_message "m2", (is_message "m3", tt)) true (some (pos 20)) (some thread)
      (is_message "m1", (is_message "m2", tt))
