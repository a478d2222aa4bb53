-- ===== src/EndToEnd/Tokens.antt =====
-- From the token that souk puts into a run to the completion that the gateway hands back to souk:
-- `resolve_kyok_model`, the signature of `KyokSigningAuth`, and the route `chat_completions`. Between
-- them stands the model library's client, which sends the key of its model as a bearer token.
mod Tests
use agent_souk_server.Agents.Model.{openai_chat, resolve_kyok_model}
use agent_souk_server.Agents.Model.Names.{after_prefix-append}
use agent_souk_server.Http.{and_then}
use agent_souk_server.Http.Completions.{
  Request, KyokCore, bearer, relayed, chat_completions, auth_flow,
}
use agent_souk_server.Http.Completions.Signed.{chat_completions-signed}
use agent_souk_server.Base.{ℕ, String, ◌<>◌, ◌≡◌, refl, false, Option, some, subst}
use agent_souk_server.Base.Json.{Json, obj, Fields, get, is_null}
use agent_souk_server.Base.Dict.{lookup}
use agent_souk_server.Base.Text.{rstrip_slash}

module _ (kyok : KyokCore) (sha256 : String → String)
    (kyok_call_payload : String → ℕ → String → String) (sign : String → String)
    (decimal : ℕ → String) where
  -- When a run carries a KYOK entry that validates to a token, the model of the run is the gateway's
  -- relay with that token as its key; and a request that the model's client makes with that key, once
  -- it is signed, has the gateway call souk with just that token, the request's content and its time,
  -- under the agent's signature over the three.
  pub token_round_trip :
      (validate : Json → Option String) (run_input forwarded : Fields) (token url : String)
      (timestamp : ℕ) (request : Request)
      → get "forwardedProps" run_input ≡ obj forwarded
      → is_null (get "kyok" forwarded) ≡ false
      → validate (get "kyok" forwarded) ≡ some token
      → lookup "authorization" request.headers ≡ some ("Bearer " <> token)
      → (resolve_kyok_model validate run_input url
          ≡ some (openai_chat "kyok" (rstrip_slash url <> "/kyok/v1") token))
        × (chat_completions kyok (auth_flow sha256 kyok_call_payload sign decimal timestamp request)
            ≡ and_then
                (kyok.complete token request.content
                  (decimal timestamp)
                  (sign (kyok_call_payload token timestamp (sha256 request.content))))
                (λ relay. relayed relay))
  unfolding resolve_kyok_model bearer
  token_round_trip validate run_input forwarded token url timestamp request f n v h = (
    rw (f, n, v) refl,
    subst
        (λ t.
          chat_completions kyok (auth_flow sha256 kyok_call_payload sign decimal timestamp request)
          ≡ and_then
              (kyok.complete t request.content (decimal timestamp)
                (sign (kyok_call_payload t timestamp (sha256 request.content))))
              (λ relay. relayed relay))
        token_is
        (chat_completions-signed kyok sha256 kyok_call_payload sign decimal timestamp request),
  )
    where
      token_is : bearer request ≡ token
      token_is = rw (h, after_prefix-append "Bearer " token) refl
