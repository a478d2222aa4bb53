-- ===== src/Agents/Echo/Laws.antt =====
-- What the echo says.
use text.Mathlib.Text.{starts_with}
use text.Mathlib.TextPositions.{starts_with-append}
use mathlib.Core.List.{reverse, reverse-append, reverse-cons}
use agent_souk_server.Agents.Events.{
  run_started, text_message_start, text_message_content, text_message_end, run_finished, before,
  over, starts, opens, speaks, closes, finishes, Trace, rests, goes,
}
use agent_souk_server.Agents.Relay.{RunInput, message_id}
use agent_souk_server.Agents.Echo.{content_or_empty, last_of_user}
use agent_souk_server.Gateway.Wire.{equals_str}
use agent_souk_server.Base.{
  String, ◌<>◌, ◌≡◌, refl, sym, ap, ◌∙◌, ◌≢◌, Bool, true, false, List, [], ◌∷◌, ◌++◌, ==_false, All,
  All-append, subst, append_assoc,
}
use agent_souk_server.Base.Json.{Json, str, Fields, get_field, get, truthy}
use agent_souk_server.Agents.Echo.{run_stream}

abbrev pub is_of_user : Fields → Bool
is_of_user m = equals_str (get "role" m) "user"

abbrev IsOther : Fields → Type 0
IsOther x = is_of_user x ≡ false

last_of_user_lem :
    (others ms : List Fields) (m : Fields)
    → All IsOther others
    → is_of_user m ≡ true
    → last_of_user (others ++ m ∷ ms) ≡ content_or_empty (get_field "content" m)
last_of_user_lem [] ms m h e = rw e refl
last_of_user_lem (o ∷ others) ms m h e = rw (h.0) (last_of_user_lem others ms m h.1 e)

reverse-AllOthers : (xs : List Fields) → All IsOther xs → All IsOther (reverse xs)
reverse-AllOthers [] h = tt
reverse-AllOthers (x ∷ xs) h =
    subst (All IsOther) (sym (reverse-cons x xs))
      (All-append IsOther (reverse xs) (x ∷ []) (reverse-AllOthers xs h.1) (h.0, tt))

echo_filled : (t : String) → truthy (str ("echo: " <> t)) ≡ true
echo_filled t = rw (==_false ("echo: " <> t) "" filled) refl
  where
    false-ne-true : starts_with "" "echo: " ≡ true → ⊥
    false-ne-true h = cc

    filled : "echo: " <> t ≢ ""
    filled e =
        false-ne-true (subst (λ x. starts_with x "echo: " ≡ true) e (starts_with-append "echo: " t))

module _ (text : Json → String) where
  -- When the user sent a message and none after it, the run echoes that message's content, whatever
  -- stands before and after it, and keeps the order of AG-UI.
  pub run_stream-echoes :
      (input : RunInput) (earlier others : List Fields) (m : Fields)
      → input.messages ≡ earlier ++ m ∷ others
      → is_of_user m ≡ true
      → All IsOther others
      → (run_stream text input
          ≡ run_started input.thread_id input.run_id
            ∷ text_message_start (message_id input)
            ∷ text_message_content
                (message_id input)
                (str ("echo: " <> text (content_or_empty (get_field "content" m))))
            ∷ text_message_end (message_id input)
            ∷ run_finished input.thread_id input.run_id
            ∷ [])
        × Trace input.thread_id input.run_id before (run_stream text input) over
  unfolding run_stream
  run_stream-echoes input earlier others m s e h = (
    rw found refl,
    goes starts (
        goes (opens _) (goes (speaks _ _ (echo_filled _)) (goes (closes _) (goes finishes rests)))),
  )
    where
      reversed : reverse input.messages ≡ reverse others ++ m ∷ reverse earlier
      reversed =
          ap reverse s
          ∙ reverse-append earlier (m ∷ others)
          ∙ ap (λ l. l ++ reverse earlier) (reverse-cons m others)
          ∙ append_assoc (reverse others) (m ∷ []) (reverse earlier)

      found : last_of_user (reverse input.messages) ≡ content_or_empty (get_field "content" m)
      found =
          ap last_of_user reversed
          ∙ last_of_user_lem (reverse others) (reverse earlier) m (reverse-AllOthers others h) e
