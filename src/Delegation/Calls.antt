-- ===== src/Delegation/Calls.antt =====
-- providers/pydantic-ai-agent/pydantic_ai_agent/sub_agent_tool.py: what `call_sub_agent` makes of the
-- updates of a call, once it has an address.
pub mod Reports
use agent_souk_server.Delegation.{SubAgentConfig, Address}
use agent_souk_server.Gateway.Wire.{equals_str}
use agent_souk_server.Base.{
  String, ◌<>◌, ◌==◌, Bool, true, Option, none, some, List, [], ◌∷◌, ◌++◌, if◌then◌else◌,
}
use agent_souk_server.Base.Json.{
  Json, null, str, arr, obj, Fields, end, field, get_field, get, merge, to_list, truthy,
}
use agent_souk_server.Base.Dict.{Dict, insert}

-- `progress` is what went to the queue, and `contexts` is `sub_agent_context_ids`; both outlive a call
-- that raises.
pub record Call : Type 0 where
  pub final_text : String
  pub failed : Bool
  pub pending : Bool
  pub progress : List Fields
  pub contexts : Dict Json

pub data Flow : Type 0 where
  running : Call → Flow
  broken : Call → Flow

-- `v or {}`, where what is no dict has no `get`
abbrev pub dict_or_empty : Json → Option Fields
dict_or_empty (obj fs) = some fs
dict_or_empty v = if truthy v then none else some end

-- `d.get("status", {})` as a dict
abbrev pub dict_or_missing : Option Json → Option Fields
dict_or_missing none = some end
dict_or_missing (some (obj fs)) = some fs
dict_or_missing (some v) = none

-- Going through `d.get("parts", [])`: the members of what is no list have no `get` either.
abbrev pub parts_of : Option Json → Option (List Json)
parts_of none = some []
parts_of (some (arr xs)) = some (to_list xs)
parts_of (some (obj end)) = some []
parts_of (some (str s)) = if s == "" then some [] else none
parts_of (some v) = none

abbrev pub with_text : String → Json → String
with_text text (str t) = text <> t
with_text text v = text

abbrev pub add_parts : String → List Json → Option String
add_parts text [] = some text
add_parts text (obj part ∷ parts) = add_parts (with_text text (get "text" part)) parts
add_parts text (_ ∷ parts) = none

abbrev pub or_null : Option String → Json
or_null none = null
or_null (some s) = str s

abbrev pub progress_of : SubAgentConfig → Address → Fields → Fields
progress_of sub place update = field "type" (str "CUSTOM") (
    field "name" (str "sub_agent_progress") (
      field "value"
        (obj (
          merge
            (field "sub_agent" (str sub.name) (
              field "provider" (or_null place.provider) (
                field "provider_key" (or_null place.provider_key)
                  (field "agent_name" (or_null place.agent_name) end))))
            update))
        end))

abbrev pub report : Fields → Call → Call
report event c = record c { progress = c.progress ++ event ∷ [] }

abbrev pub note_context : String → Json → Call → Call
note_context name v c = if truthy v then record c { contexts = insert name v c.contexts } else c

abbrev pub note_state : Json → Call → Call
note_state state c =
    if equals_str state "TASK_STATE_FAILED"
    then record c { failed = true }
    else if equals_str state "TASK_STATE_INPUT_REQUIRED"
    then record c { pending = true }
    else c

abbrev pub take_text : Option String → Call → Flow
take_text none c = broken c
take_text (some text) c = running (record c { final_text = text })

abbrev pub take_parts : Option (List Json) → Call → Flow
take_parts none c = broken c
take_parts (some parts) c = take_text (add_parts c.final_text parts) c

abbrev pub take_artifact : Option Fields → Call → Flow
take_artifact none c = broken c
take_artifact (some artifact) c = take_parts (parts_of (get_field "parts" artifact)) c

abbrev pub take_artifact_update : Option Fields → Call → Flow
take_artifact_update none c = broken c
take_artifact_update (some u) c = take_artifact (dict_or_empty (get "artifact" u)) c

abbrev pub take_status : Option Fields → Option Fields → Call → Flow
take_status none artifact c = broken c
take_status (some status) artifact c =
    take_artifact_update artifact (note_state (get "state" status) c)

-- `status_update.get("contextId") or artifact_update.get("contextId")`; the second is not asked when
-- the first is there.
abbrev pub returned_context : Fields → Option Fields → Option Json
returned_context status none =
    if truthy (get "contextId" status) then some (get "contextId" status) else none
returned_context status (some artifact) =
    some
      (if truthy (get "contextId" status) then get "contextId" status else get "contextId" artifact)

abbrev pub take_context : String → Option Json → Fields → Option Fields → Call → Flow
take_context name none status artifact c = broken c
take_context name (some v) status artifact c =
    take_status (dict_or_missing (get_field "status" status)) artifact (note_context name v c)

abbrev pub take_update : String → Option Fields → Option Fields → Call → Flow
take_update name none artifact c = broken c
take_update name (some status) artifact c =
    take_context name (returned_context status artifact) status artifact c

module _ (sub : SubAgentConfig) (place : Address) where
  unfoldable pub on_update : Fields → Call → Flow
  on_update update c =
      take_update sub.name (dict_or_empty (get "statusUpdate" update))
        (dict_or_empty (get "artifactUpdate" update)) (report (progress_of sub place update) c)

  unfoldable pub follow_call : List Fields → Call → Flow
  follow_call [] c = running c
  follow_call (update ∷ updates) c = elim (on_update update c) [
    | running d ↦ follow_call updates d
    | broken d ↦ broken d
  ]

-- What the tool answers, once the updates are through.
unfoldable pub answer_of_call : SubAgentConfig → Call → String
answer_of_call sub c =
    if c.failed
    then "(" <> sub.name <> " is currently unavailable — the call failed or timed out)"
    else if c.pending
    then "(" <> sub.name
      <> " needs more time to respond — e.g. it's waiting on human approval — and hasn't resolved yet; you'll be notified once it does, no need to call it again for this)"
    else if c.final_text == ""
    then "(no response from " <> sub.name <> ")"
    else c.final_text
