-- ===== src/EndToEnd/Tokens/Tests.antt =====
-- The theorem on tokens at a run that carries one.
use agent_souk_server.Agents.Model.{openai_chat, resolve_kyok_model}
use agent_souk_server.Http.{kyok_rejected, and_then}
use agent_souk_server.Http.Completions.{Request, KyokCore, relayed, chat_completions, auth_flow}
use agent_souk_server.EndToEnd.Tokens.{token_round_trip}
use agent_souk_server.Base.{String, ◌<>◌, ◌≡◌, refl, inl, Option, none, some, List, [], ◌∷◌}
use agent_souk_server.Base.Json.{Json, null, str, obj, Fields, end, field, get, as_str}

-- A souk that answers nothing, and keeps what it was called with.
abbrev kyok : KyokCore
kyok = record {
  State = List String;
  complete = λ token content timestamp signature s.
      (inl (kyok_rejected 503 "" null), token ∷ content ∷ timestamp ∷ signature ∷ []);
}

abbrev forwarded : Fields
forwarded = field "kyok" (obj (field "token" (str "tok") end)) end

abbrev validate : Json → Option String
validate (obj fs) = as_str (get "token" fs)
validate _ = none

abbrev completion : Request
completion = record { headers = ("authorization", "Bearer tok") ∷ []; content = "{}" }

token_round_trip_example :
    (resolve_kyok_model validate (field "forwardedProps" (obj forwarded) end) "http://souk/"
      ≡ some (openai_chat "kyok" "http://souk/kyok/v1" "tok"))
    × (chat_completions kyok
          (auth_flow (λ s. s) (λ t n h. t <> ":" <> h) (λ p. "sig:" <> p) (λ n. "7") 7 completion)
        ≡ and_then (kyok.complete "tok" "{}" "7" "sig:tok:{}") (λ relay. relayed relay))
token_round_trip_example =
    token_round_trip kyok (λ s. s) (λ t n h. t <> ":" <> h) (λ p. "sig:" <> p) (λ n. "7") validate
      (field "forwardedProps" (obj forwarded) end) forwarded "tok" "http://souk/" 7 completion refl
      refl refl refl
