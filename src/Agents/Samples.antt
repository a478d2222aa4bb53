-- ===== src/Agents/Samples.antt =====
-- Inputs for the tests of the agents.
use agent_souk_server.Agents.Relay.{
  AgentConfig, RunInput, Request, Reply, Fault, upstream, not_json, not_iterable, no_get,
}
use agent_souk_server.Delegation.{SubAgentConfig, Address}
use agent_souk_server.Delegation.Tool.{A2aReply}
use agent_souk_server.Agents.Threads.{Run}
use agent_souk_server.Client.{Row}
use agent_souk_server.Base.{
  ℕ, String, ◌==◌, true, false, Option, none, some, [], ◌∷◌, if◌then◌else◌,
}
use agent_souk_server.Base.Json.{Json, str, arr, obj, nil, cons, Fields, end, field}

abbrev pub said_by_user : Fields
said_by_user = field "role" (str "user") (field "content" (str "salt?") end)

abbrev pub said_by_agent : Fields
said_by_agent = field "role" (str "assistant") (field "content" (str "a sack") end)

abbrev pub a_run : RunInput
a_run = record {
  thread_id = "t1";
  run_id = "r1";
  messages = said_by_agent ∷ said_by_user ∷ said_by_agent ∷ [];
}

abbrev pub hermes : AgentConfig
hermes = record {
  name = "hermes";
  api_base = "http://h/v1/";
  api_key = "k";
  model = "m";
  system_prompt = "be brief";
  session_id_header = "X-Session";
  memory_scope_header = "";
}

abbrev chunk : String → Json
chunk s = obj (
    field "choices" (arr (cons (obj (field "delta" (obj (field "content" (str s) end)) end)) nil))
      end)

-- `json.loads` for the texts that stand here
abbrev pub loads : String → Option Json
loads t =
    if t == "hi"
    then some (chunk "hi")
    else if t == "empty"
    then some (chunk "")
    else if t == "there"
    then some (chunk "there")
    else if t == "told"
    then some (
        obj (
          field "result"
            (obj (
              field "statusUpdate"
                (obj (
                  field "contextId" (str "ctx-1")
                    (field "status" (obj (field "state" (str "TASK_STATE_COMPLETED") end)) end)))
                end))
            end))
    else none

-- Two deltas, an empty one between them, and what comes after the end
abbrev pub whole_reply : Request → Reply
whole_reply request = record {
  events = "hi" ∷ "empty" ∷ "there" ∷ "[DONE]" ∷ "hi" ∷ [];
  raised = some "late";
}

abbrev pub broken_reply : Request → Reply
broken_reply request = record { events = "hi" ∷ []; raised = some "reset" }

abbrev pub explain : Fault → String
explain (upstream e) = e
explain (not_json t) = "not JSON"
explain not_iterable = "not iterable"
explain no_get = "no get"

abbrev pub scribe : SubAgentConfig
scribe = record { name = "scribe"; agent = ""; provider = ""; a2a_url = "" }

abbrev pub clerk : SubAgentConfig
clerk = record { name = "clerk"; agent = ""; provider = ""; a2a_url = "" }

abbrev pub scribe_place : Address
scribe_place = record {
  url = "http://s/a2a/fp/scribe/rpc";
  provider = some "fp";
  provider_key = some "k1";
  agent_name = some "scribe";
}

abbrev pub told_endpoint : String → Fields → A2aReply
told_endpoint url body = record { events = "told" ∷ []; raised = false }

abbrev pub run_of : String → String → Run
run_of thread run = record { thread_id = thread; run_id = str run; actor_chain = none }

abbrev pub no_digits : ℕ → String
no_digits n = "some"

abbrev pub stall_row : Row
stall_row = record {
  provider_key = "k1";
  fingerprint = "fp-k1";
  name = "scribe";
  description = "";
  online = true;
  provider_name = none;
}
