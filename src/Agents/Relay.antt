-- ===== src/Agents/Relay.antt =====
-- providers/openai-compat-agent/openai_compat_agent/main.py: an OpenAI-compatible endpoint as an
-- agent. The endpoint, `json.loads` and the text of an exception are parameters.
pub mod Speech
pub mod Protocol
use agent_souk_server.Agents.Events.{
  Event, run_started, text_message_start, text_message_content, text_message_end, run_finished,
  run_error,
}
use agent_souk_server.Gateway.Wire.{equals_str}
use agent_souk_server.Base.{
  String, ◌<>◌, ◌==◌, ◌⊎◌, inl, inr, Bool, true, false, ◌&&◌, ◌||◌, Option, none, some, List, [],
  ◌∷◌, ◌++◌, if◌then◌else◌,
}
use agent_souk_server.Base.Json.{
  Json, null, bool, str, arr, obj, Fields, end, field, get_field, get, to_list, from_list, truthy,
}
use agent_souk_server.Base.Dict.{Dict, insert}
use agent_souk_server.Base.Text.{rstrip_slash}

pub record AgentConfig : Type 0 where
  pub name : String
  pub api_base : String
  pub api_key : String
  pub model : String
  pub system_prompt : String
  pub session_id_header : String
  pub memory_scope_header : String

-- `RunAgentInput`, dumped: what a run reads of it
pub record RunInput : Type 0 where
  pub thread_id : String
  pub run_id : String
  pub messages : List Fields

pub record Request : Type 0 where
  pub url : String
  pub headers : Dict String
  pub body : Fields

-- What the endpoint sends: the data of its events, and the exception that ends them, if one does.
pub record Reply : Type 0 where
  pub events : List String
  pub raised : Option String

-- What `except Exception` catches: the exception of the endpoint, a text that `json.loads` refuses,
-- what cannot be gone through, and what has no `get`.
pub data Fault : Type 0 where
  upstream : String → Fault
  not_json : String → Fault
  not_iterable : Fault
  no_get : Fault

-- What a loop yielded, whether a message was started, and the exception that broke it.
pub record Said : Type 0 where
  pub yielded : List Event
  pub started : Bool
  pub fault : Option Fault

abbrev is_spoken : Json → Bool
is_spoken role = equals_str role "user" || equals_str role "assistant" || equals_str role "system"

abbrev chat_message : Json → Json → Json
chat_message role content = obj (field "role" role (field "content" content end))

abbrev relayed : List Fields → List Json
relayed [] = []
relayed (m ∷ ms) =
    if is_spoken (get "role" m) && truthy (get "content" m)
    then chat_message (get "role" m) (get "content" m) ∷ relayed ms
    else relayed ms

abbrev pub build_messages : AgentConfig → List Fields → List Json
build_messages agent ms =
    if agent.system_prompt == ""
    then relayed ms
    else chat_message (str "system") (str agent.system_prompt) ∷ relayed ms

abbrev with_header : String → String → Dict String → Dict String
with_header name v headers = if name == "" then headers else insert name v headers

abbrev headers_of : AgentConfig → String → Dict String
headers_of agent thread = with_header agent.memory_scope_header thread (
    with_header agent.session_id_header thread
      (if agent.api_key == "" then [] else ("Authorization", "Bearer " <> agent.api_key) ∷ []))

unfoldable pub request_of : AgentConfig → RunInput → Request
request_of agent input = record {
  url = rstrip_slash agent.api_base <> "/chat/completions";
  headers = headers_of agent input.thread_id;
  body = field "model" (str agent.model) (
      field "messages" (arr (from_list (build_messages agent input.messages)))
        (field "stream" (bool true) end));
}

-- `choice.get("delta", {}).get("content")`
abbrev content_of : Option Json → Option Json
content_of none = some null
content_of (some (obj delta)) = some (get "content" delta)
content_of (some _) = none

abbrev pub delta_of : Json → Option Json
delta_of (obj choice) = content_of (get_field "delta" choice)
delta_of _ = none

-- Going through a value: a text gives its characters and a dict its keys. Their first member has no
-- `get` already, and stands for all of them here.
abbrev members_of : Option Json → Fault ⊎ List Json
members_of none = inr []
members_of (some (arr xs)) = inr (to_list xs)
members_of (some (obj end)) = inr []
members_of (some (obj (field k v fs))) = inr (str k ∷ [])
members_of (some (str s)) = inr (if s == "" then [] else str s ∷ [])
members_of (some _) = inl not_iterable

-- `chunk.get("choices", [])` of `json.loads(sse.data)`
abbrev pub choices_of : String → Option Json → Fault ⊎ List Json
choices_of data_text none = inl (not_json data_text)
choices_of data_text (some (obj chunk)) = members_of (get_field "choices" chunk)
choices_of data_text (some _) = inl no_get

abbrev pub stopped : Bool → Option Fault → Said
stopped started f = record { yielded = []; started = started; fault = f }

abbrev pub ahead : List Event → Said → Said
ahead es said = record said { yielded = es ++ said.yielded }

abbrev pub content : String → Bool → Json → List Event
content id true delta = text_message_content id delta ∷ []
content id false delta = text_message_start id ∷ text_message_content id delta ∷ []

abbrev pub on_delta : String → Option Json → Bool → (Bool → Said) → Said
on_delta id none started rest = stopped started (some no_get)
on_delta id (some delta) started rest =
    if truthy delta then ahead (content id started delta) (rest true) else rest started

abbrev pub on_choices : String → List Json → Bool → Said
on_choices id [] started = stopped started none
on_choices id (choice ∷ choices) started =
    on_delta id (delta_of choice) started (on_choices id choices)

abbrev pub after_choices : Said → (Bool → Said) → Said
after_choices said rest = elim said.fault [
  | none ↦ ahead said.yielded (rest said.started)
  | some f ↦ said
]

abbrev pub on_chunk : String → Fault ⊎ List Json → Bool → (Bool → Said) → Said
on_chunk id (inl f) started rest = stopped started (some f)
on_chunk id (inr choices) started rest = after_choices (on_choices id choices started) rest

abbrev raised_of : Option String → Option Fault
raised_of none = none
raised_of (some e) = some (upstream e)

module _ (loads : String → Option Json) where
  abbrev pub on_events : String → List String → Option String → Bool → Said
  on_events id [] e started = stopped started (raised_of e)
  on_events id (data_text ∷ rest) e started =
      let more = on_events id rest e in
      if data_text == "[DONE]"
      then stopped started none
      else on_chunk id (choices_of data_text (loads data_text)) started more

-- What follows the loop: `except`, or the two last events.
abbrev closing : (Fault → String) → RunInput → String → Said → List Event
closing explain input id said = elim said.fault [
  | some f ↦ run_error ("upstream call failed: " <> explain f) ∷ []
  | none ↦
      if said.started
      then text_message_end id ∷ run_finished input.thread_id input.run_id ∷ []
      else run_finished input.thread_id input.run_id ∷ []
]

abbrev pub message_id : RunInput → String
message_id input = input.run_id <> "-reply"

abbrev pub ended_by : (Fault → String) → RunInput → Said → List Event
ended_by explain input said = said.yielded ++ closing explain input (message_id input) said

module _ (explain : Fault → String) (loads : String → Option Json)
    (endpoint : Request → Reply) where
  -- What the run yields to a reader that reads it to its end.
  unfoldable pub run_stream : AgentConfig → RunInput → List Event
  unfolding request_of
  run_stream agent input =
      let reply = endpoint (request_of agent input) in
      run_started input.thread_id input.run_id
      ∷ ended_by explain input (on_events loads (message_id input) reply.events reply.raised false)
