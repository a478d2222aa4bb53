-- ===== src/Http.antt =====
-- souk_server/deps.py: the domain errors as HTTP responses, and the agent that a path names. What the
-- routes call of souk is a parameter, `SoukCore`: an operation takes souk's state, and returns or
-- raises.
pub mod Routes
pub mod Roster
pub mod Completions
pub mod Addresses
pub mod Refusals
mod Tests
use agent_souk_server.Base.{ℕ, String, ◌<>◌, ◌⊎◌, inl, inr, Option, none, some, List, if◌then◌else◌}
use agent_souk_server.Base.Json.{Json, str, obj, Fields, end, field, is_null}

-- An error that souk raises, with `str(exc)`. The last one stands for every other `SoukError`.
pub data Fault : Type 0 where
  agent_not_found : String → Fault
  llm_provider_not_found : String → Fault
  thread_not_found : String → Fault
  run_not_found : String → Fault
  thread_ownership_mismatch : String → Fault
  provider_fingerprint_taken : String → Fault
  agent_in_use : String → Fault
  llm_offering_in_use : String → Fault
  invalid_registration : String → Fault
  invalid_actor_chain : String → Fault
  invalid_run_input : String → Fault
  kyok_rejected : ℕ → String → Json → Fault
  other_souk_error : String → Fault

-- What a response carries: JSON, the data of server-sent events, the pieces of a text, or nothing.
pub data Body : Type 0 where
  json_body : Json → Body
  event_stream : List String → Body
  text_stream : List String → Body
  no_body : Body

pub record Response : Type 0 where
  pub status : ℕ
  pub body : Body

abbrev pub ok : Json → Response
ok v = record { status = 200; body = json_body v }

-- `_STATUS.get(type(exc), 500)`, and the status that a `KyokRejected` brings
abbrev pub status_of : Fault → ℕ
status_of (agent_not_found e) = 404
status_of (llm_provider_not_found e) = 404
status_of (thread_not_found e) = 404
status_of (run_not_found e) = 404
status_of (thread_ownership_mismatch e) = 409
status_of (provider_fingerprint_taken e) = 409
status_of (agent_in_use e) = 409
status_of (llm_offering_in_use e) = 409
status_of (invalid_registration e) = 401
status_of (invalid_actor_chain e) = 401
status_of (invalid_run_input e) = 400
status_of (kyok_rejected status e refusal) = status
status_of (other_souk_error e) = 500

abbrev pub detail : Fault → String
detail (agent_not_found e) = e
detail (llm_provider_not_found e) = e
detail (thread_not_found e) = "thread '" <> e <> "' not found"
detail (run_not_found e) = e
detail (thread_ownership_mismatch e) = e
detail (provider_fingerprint_taken e) = e
detail (agent_in_use e) = e
detail (llm_offering_in_use e) = e
detail (invalid_registration e) = e
detail (invalid_actor_chain e) = "invalid actor chain: " <> e
detail (invalid_run_input e) = e
detail (kyok_rejected status e refusal) = e
detail (other_souk_error e) = e

-- `content["error"]`, for a rejection that carries a refusal
abbrev pub with_refusal : Fault → Fields
with_refusal (kyok_rejected status e refusal) =
    if is_null refusal then end else field "error" refusal end
with_refusal _ = end

unfoldable pub handle : Fault → Response
handle exc = record {
  status = status_of exc;
  body = json_body (obj (field "detail" (str (detail exc)) (with_refusal exc)));
}

pub record AgentRef : Type 0 where
  pub provider_key : String
  pub name : String

-- A call of souk: what it returns or raises, and the state after it.
abbrev pub Call : Type 0 → Type 0 → Type 0
Call State A = State → (Fault ⊎ A) × State

module _ {State A B : Type 0} where
  abbrev pub after : (Fault ⊎ A) × State → (A → Call State B) → (Fault ⊎ B) × State
  after (inl exc, s) rest = (inl exc, s)
  after (inr v, s) rest = rest v s

  abbrev pub and_then : Call State A → (A → Call State B) → Call State B
  and_then call rest s = after (call s) rest

module _ {State A : Type 0} where
  abbrev pub raise : Fault → Call State A
  raise exc s = (inl exc, s)

  abbrev pub done_with : A → Call State A
  done_with v s = (inr v, s)

-- A route with the app's error handlers around it.
abbrev pub handled : {State : Type 0} → (Fault ⊎ Response) × State → Response × State
handled (inl exc, s) = (handle exc, s)
handled (inr response, s) = (response, s)

abbrev pub respond : {State : Type 0} → Call State Response → State → Response × State
respond route s = handled (route s)

abbrev pub found_or : {State : Type 0} → String → String → Option AgentRef → Call State AgentRef
found_or provider name none =
    raise (agent_not_found ("no agent '" <> name <> "' under provider '" <> provider <> "'"))
found_or provider name (some found) = done_with found

-- `souk.resolve_agent` is the argument.
abbrev pub resolve_ref :
    {State : Type 0}
    → (String → String → Call State (Option AgentRef))
    → String
    → String
    → Call State AgentRef
resolve_ref resolve_agent provider name =
    and_then (resolve_agent provider name) (found_or provider name)
