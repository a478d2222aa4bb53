-- ===== src/Http/Completions.antt =====
-- souk_server/api_llm_bridge.py, `chat_completions`, and the end that calls it,
-- souk-agent-sdk/souk_agent_sdk/kyok_auth.py. The names of headers are in lower case here: neither end
-- looks at their case. The relay, the hash, the signature and the decimal text of a number are
-- parameters.
pub mod Signed
use agent_souk_server.Http.{text_stream, Response, ok, Call, and_then, done_with}
use agent_souk_server.Base.{ℕ, String, ◌<>◌, Bool, Option, none, some, List, map, if◌then◌else◌}
use agent_souk_server.Base.Json.{Json}
use agent_souk_server.Base.Dict.{Dict, lookup, insert}
use agent_souk_server.Base.Text.{after_prefix, remove_prefix}

pub record Request : Type 0 where
  pub headers : Dict String
  pub content : String

-- `KyokAdapter.complete` gives a relay: its whole answer, or the data of its stream and the
-- rejection that ends it, as its message, if one does.
pub record Relay (State : Type 0) : Type 0 where
  pub stream_requested : Bool
  pub collapsed : Call State Json
  pub encoded : List String
  pub rejected : Option String

pub record KyokCore : Type 1 where
  pub State : Type 0
  pub complete : String → String → String → String → Call State (Relay State)

abbrev text_or_empty : Option String → String
text_or_empty none = ""
text_or_empty (some v) = v

abbrev pub header : String → Request → String
header name request = text_or_empty (lookup name request.headers)

-- `header[len("Bearer ") :] if header.startswith("Bearer ") else header`
abbrev pub without_bearer : String → Option String → String
without_bearer v none = v
without_bearer v (some token) = token

unfoldable pub bearer : Request → String
bearer request =
    without_bearer (header "authorization" request)
      (after_prefix "Bearer " (header "authorization" request))

abbrev sse_line : String → String
sse_line data_text = "data: " <> data_text <> "\n\n"

-- A rejection ends the stream where it is: the response has started.
abbrev sse : {State : Type 0} → Relay State → Response
sse relay = record { status = 200; body = text_stream (map sse_line relay.encoded) }

abbrev pub relayed : {State : Type 0} → Relay State → Call State Response
relayed relay =
    if relay.stream_requested
    then done_with (sse relay)
    else and_then relay.collapsed (λ completion. done_with (ok completion))

module _ (kyok : KyokCore) where
  unfoldable pub chat_completions : Request → Call kyok.State Response
  unfolding bearer
  chat_completions request =
      and_then
        (kyok.complete (bearer request) request.content (header "x-souk-kyok-timestamp" request)
          (header "x-souk-kyok-signature" request))
        (λ relay. relayed relay)

module _ (sha256 : String → String) (kyok_call_payload : String → ℕ → String → String)
    (sign : String → String) (decimal : ℕ → String) where
  -- `KyokSigningAuth.auth_flow`, at a time
  unfoldable pub auth_flow : ℕ → Request → Request
  auth_flow timestamp request =
      let token : String = remove_prefix "Bearer " (header "authorization" request) in
      let payload : String = kyok_call_payload token timestamp (sha256 request.content) in
      record request {
        headers =
            insert "x-souk-kyok-signature" (sign payload)
              (insert "x-souk-kyok-timestamp" (decimal timestamp) request.headers);
      }
