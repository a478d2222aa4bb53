-- ===== src/Client.antt =====
-- souk-client-sdk/souk_client_sdk/client.py: `resolve`, and the body and the ids of `run`. A row of
-- `GET /agents` is what souk_server/api_registry.py gives, which always has these keys.
pub mod Laws
mod Tests
use agent_souk_server.Gateway.Wire.{equals_str}
use agent_souk_server.Base.{
  String, ◌==◌, Bool, true, ◌&&◌, ◌||◌, Option, none, some, List, [], ◌∷◌, map, if◌then◌else◌,
  select,
}
use agent_souk_server.Base.Json.{
  Json, null, str, arr, obj, nil, cons, Fields, end, field, get_field, get, put, from_list,
}

pub record Row : Type 0 where
  pub provider_key : String
  pub fingerprint : String
  pub name : String
  pub description : String
  pub online : Bool
  pub provider_name : Option String

pub record Agent : Type 0 where
  pub provider : String
  pub name : String
  pub provider_key : String
  pub description : String
  pub online : Bool
  pub provider_name : Option String

abbrev pub agent_of : Row → Agent
agent_of r = record {
  provider = r.fingerprint;
  name = r.name;
  provider_key = r.provider_key;
  description = r.description;
  online = r.online;
  provider_name = r.provider_name;
}

abbrev pub roster : List Row → List Agent
roster rows = map agent_of rows

abbrev pub is_offered_by : Option String → Agent → Bool
is_offered_by none a = true
is_offered_by (some provider) a = a.provider == provider || a.provider_key == provider

abbrev pub is_candidate : String → Option String → Agent → Bool
is_candidate name provider a = a.name == name && is_offered_by provider a

-- `resolve` returns an agent, or raises `AgentNotFound` or `AmbiguousAgentName` with the candidates.
pub data Resolution : Type 0 where
  resolved : Agent → Resolution
  agent_not_found : Resolution
  ambiguous_name : List Agent → Resolution

abbrev pub sole : List Agent → Resolution
sole [] = agent_not_found
sole (a ∷ []) = resolved a
sole (a ∷ b ∷ rest) = ambiguous_name (a ∷ b ∷ rest)

unfoldable pub resolve : String → Option String → List Row → Resolution
resolve name provider rows = sole (select (is_candidate name provider) (roster rows))

-- What a caller of `run` passes.
pub record Request : Type 0 where
  pub message : String
  pub role : String
  pub metadata : Option Fields
  pub resume : Option (List Json)

abbrev messages_json : String → Request → Json
messages_json message_id r =
    if r.message == ""
    then arr nil
    else arr (
        cons
          (obj (
            field "id" (str message_id)
              (field "role" (str r.role) (field "content" (str r.message) end))))
          nil)

abbrev with_metadata : Option Fields → Fields → Fields
with_metadata none body = body
with_metadata (some m) body = put "metadata" (obj m) body

abbrev with_resume : Option (List Json) → Fields → Fields
with_resume none body = body
with_resume (some entries) body = put "resume" (arr (from_list entries)) body

-- The body that is posted; both ids are `uuid4()`.
unfoldable pub run_body : String → String → String → Request → Fields
run_body thread_id run_id message_id r = with_resume r.resume (
    with_metadata r.metadata (
      field "threadId" (str thread_id) (
        field "runId" (str run_id) (
          field "state" null (
            field "messages" (messages_json message_id r) (
              field "tools" (arr nil)
                (field "context" (arr nil) (field "forwardedProps" null end))))))))

-- `last_thread_id` and `last_run_id`
pub record Ids : Type 0 where
  pub last_thread_id : Json
  pub last_run_id : Json

abbrev pub thread_of : String → Fields → Json
thread_of thread_id event = elim (get_field "threadId" event) [ none ↦ str thread_id | some v ↦ v ]

abbrev pub is_run_started : Fields → Bool
is_run_started event = equals_str (get "type" event) "RUN_STARTED"

unfoldable pub on_event : String → Fields → Ids → Ids
on_event thread_id event ids =
    if is_run_started event
    then record { last_thread_id = thread_of thread_id event; last_run_id = get "runId" event }
    else ids

-- The events that `run` yields, one by one.
unfoldable pub follow : String → List Fields → Ids → Ids
follow thread_id [] ids = ids
follow thread_id (event ∷ events) ids = follow thread_id events (on_event thread_id event ids)

-- The ids that `run` starts with, for a thread that it was given or has made.
unfoldable pub run_ids : String → List Fields → Ids → Ids
run_ids thread_id events ids =
    follow thread_id events (record ids { last_thread_id = str thread_id })
