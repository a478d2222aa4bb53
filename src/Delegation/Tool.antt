-- ===== src/Delegation/Tool.antt =====
-- souk-agent-sdk/souk_agent_sdk/a2a_client.py: `call_agent_streaming`, and around it the whole of
-- `call_sub_agent` in providers/pydantic-ai-agent/pydantic_ai_agent/sub_agent_tool.py. The endpoint,
-- `json.loads` and the decimal text of a number are parameters.
pub mod Contexts
pub mod Continuity
use agent_souk_server.Delegation.{
  SubAgentConfig, Address, Outcome, address, not_listed, ambiguous, wanted,
}
use agent_souk_server.Delegation.Calls.{Call, Flow, running, broken, follow_call, answer_of_call}
use agent_souk_server.Client.{Row}
use agent_souk_server.Base.{
  ℕ, String, ◌<>◌, ◌==◌, Bool, true, false, Option, none, some, List, [], ◌∷◌, map, if◌then◌else◌,
  length,
}
use agent_souk_server.Base.Json.{
  Json, null, str, arr, obj, Fields, end, field, get_field, put, from_list, truthy,
}
use agent_souk_server.Base.Dict.{Dict, lookup}
use agent_souk_server.Base.Text.{join}

-- The arguments of `call_agent_streaming`: `null` and `[]` stand for `None`. The id is the one given,
-- or drawn.
pub record A2aCall : Type 0 where
  pub message_text : String
  pub request_id : String
  pub context_id : Json
  pub metadata : Fields
  pub actor_chain : Option (List String)
  pub reference_task_ids : List Json

abbrev pub with_references : List Json → Fields → Fields
with_references [] message = message
with_references (r ∷ rs) message = put "referenceTaskIds" (arr (from_list (r ∷ rs))) message

abbrev pub with_context : Json → Fields → Fields
with_context v message = if truthy v then put "contextId" v message else message

abbrev pub text_message : String → Fields
text_message text =
    field "role" (str "ROLE_USER")
      (field "parts" (arr (from_list (obj (field "text" (str text) end) ∷ []))) end)

abbrev pub message_of : A2aCall → Fields
message_of call =
    with_context call.context_id
      (with_references call.reference_task_ids (text_message call.message_text))

abbrev pub metadata_of : A2aCall → Fields
metadata_of call = elim call.actor_chain [
  | none ↦ call.metadata
  | some chain ↦ put "actorChain" (arr (from_list (map str chain))) call.metadata
]

abbrev pub params_with : Fields → Fields → Fields
params_with end message = field "message" (obj message) end
params_with (field k v fs) message =
    field "message" (obj message) (field "metadata" (obj (field k v fs)) end)

unfoldable pub body_of : A2aCall → Fields
body_of call = field "jsonrpc" (str "2.0") (
    field "id" (str call.request_id) (
      field "method" (str "SendStreamingMessage")
        (field "params" (obj (params_with (metadata_of call) (message_of call))) end)))

-- What an endpoint sends: the data of its events, and whether an exception ends them.
pub record A2aReply : Type 0 where
  pub events : List String
  pub raised : Bool

-- The results of a call, each as the update that the tool unpacks, and whether the loop over them is
-- cut off by an exception: one of the endpoint, of `json.loads`, of `payload.get`, or of `**update`.
pub record Updates : Type 0 where
  pub received : List Fields
  pub cut_off : Bool

abbrev cut : Updates
cut = record { received = []; cut_off = true }

abbrev take_result : Option Json → Updates → Updates
take_result none rest = rest
take_result (some null) rest = rest
take_result (some (obj update)) rest = record rest { received = update ∷ rest.received }
take_result (some _) rest = cut

abbrev take_payload : Option Json → Updates → Updates
take_payload (some (obj payload)) rest = take_result (get_field "result" payload) rest
take_payload _ rest = cut

abbrev pub updates_of : (String → Option Json) → List String → Bool → Updates
updates_of loads [] raised = record { received = []; cut_off = raised }
updates_of loads (t ∷ ts) raised = take_payload (loads t) (updates_of loads ts raised)

-- The words of `SubAgentUnresolvable`.
abbrev or_unnamed : Option String → String
or_unnamed none = "unnamed"
or_unnamed (some s) = if s == "" then "unnamed" else s

abbrev stall_name : Row → String
stall_name row = or_unnamed row.provider_name <> " (" <> row.fingerprint <> ")"

abbrev under : SubAgentConfig → String
under sub = if sub.provider == "" then "" else " under provider '" <> sub.provider <> "'"

abbrev not_listed_text : SubAgentConfig → String
not_listed_text sub =
    "no agent named '"
    <> wanted sub
    <> "'"
    <> under sub
    <> " is listed on this souk — it may not have registered yet"

abbrev ambiguous_text : (ℕ → String) → SubAgentConfig → List Row → String
ambiguous_text decimal sub rows =
    "'"
    <> wanted sub
    <> "' is offered by "
    <> decimal (length rows)
    <> " providers: "
    <> join ", " (map stall_name rows)
    <> ". Set `provider:` on this sub_agent to say which one is meant."

abbrev unreachable : SubAgentConfig → String → String
unreachable sub reason = "(" <> sub.name <> " could not be reached: " <> reason <> ")"

-- `AgentDeps`: `progress` is what went to the queue of the run.
pub record AgentDeps : Type 0 where
  pub run_id : Json
  pub actor_chain : Option (List String)
  pub progress : List Fields
  pub sub_agent_context_ids : Dict Json

-- A call of the tool: what was sent, to which URL, the answer, `none` when the tool raises, and what
-- it left in the queue and in the context ids.
pub record ToolRun : Type 0 where
  pub sent : Option (String × Fields)
  pub answer : Option String
  pub deps : AgentDeps

abbrev pub context_of : Option Json → Json
context_of none = null
context_of (some v) = v

abbrev pub call_for : AgentDeps → SubAgentConfig → String → String → A2aCall
call_for deps sub id message = record {
  message_text = message;
  request_id = id;
  context_id = context_of (lookup sub.name deps.sub_agent_context_ids);
  metadata = end;
  actor_chain = deps.actor_chain;
  reference_task_ids = if truthy deps.run_id then deps.run_id ∷ [] else [];
}

abbrev pub started_with : AgentDeps → Call
started_with deps = record {
  final_text = "";
  failed = false;
  pending = false;
  progress = deps.progress;
  contexts = deps.sub_agent_context_ids;
}

abbrev left_in : AgentDeps → Call → AgentDeps
left_in deps c = record deps { progress = c.progress; sub_agent_context_ids = c.contexts }

abbrev pub ended_call : SubAgentConfig → AgentDeps → String × Fields → Bool → Flow → ToolRun
ended_call sub deps sent cut_off (broken c) = record {
  sent = some sent;
  answer = none;
  deps = left_in deps c;
}
ended_call sub deps sent true (running c) = record {
  sent = some sent;
  answer = none;
  deps = left_in deps c;
}
ended_call sub deps sent false (running c) = record {
  sent = some sent;
  answer = some (answer_of_call sub c);
  deps = left_in deps c;
}

abbrev refused_call : SubAgentConfig → AgentDeps → String → ToolRun
refused_call sub deps reason = record {
  sent = none;
  answer = some (unreachable sub reason);
  deps = deps;
}

module _ (decimal : ℕ → String) (loads : String → Option Json)
    (endpoint : String → Fields → A2aReply) where
  abbrev pub call_at : SubAgentConfig → AgentDeps → String → String → Address → ToolRun
  call_at sub deps id message place =
      let body = body_of (call_for deps sub id message) in
      let reply = endpoint place.url body in
      let updates = updates_of loads reply.events reply.raised in
      ended_call sub deps (place.url, body) updates.cut_off
        (follow_call sub place updates.received (started_with deps))

  -- `place` is what `resolved.get()` comes to.
  unfoldable pub call_sub_agent : SubAgentConfig → Outcome → AgentDeps → String → String → ToolRun
  call_sub_agent sub (address place) deps id message = call_at sub deps id message place
  call_sub_agent sub not_listed deps id message = refused_call sub deps (not_listed_text sub)
  call_sub_agent sub (ambiguous rows) deps id message =
      refused_call sub deps (ambiguous_text decimal sub rows)
