-- ===== src/Agents/Echo.antt =====
-- agent-template/agent_template/main.py: the agent that echoes the last message of the user. The text
-- of a value in an f-string is a parameter.
pub mod Laws
use mathlib.Core.List.{reverse}
use agent_souk_server.Agents.Events.{
  Event, run_started, text_message_start, text_message_content, text_message_end, run_finished,
}
use agent_souk_server.Agents.Relay.{RunInput, message_id}
use agent_souk_server.Gateway.Wire.{equals_str}
use agent_souk_server.Base.{String, ◌<>◌, Option, none, some, List, [], ◌∷◌, if◌then◌else◌}
use agent_souk_server.Base.Json.{Json, str, Fields, get_field, get}

-- `message.get("content", "")`
abbrev pub content_or_empty : Option Json → Json
content_or_empty none = str ""
content_or_empty (some v) = v

-- The content of the first of the messages, gone through from the last one, that the user sent.
abbrev pub last_of_user : List Fields → Json
last_of_user [] = str ""
last_of_user (m ∷ ms) =
    if equals_str (get "role" m) "user"
    then content_or_empty (get_field "content" m)
    else last_of_user ms

module _ (text : Json → String) where
  unfoldable pub run_stream : RunInput → List Event
  run_stream input =
      run_started input.thread_id input.run_id
      ∷ text_message_start (message_id input)
      ∷ text_message_content (message_id input)
          (str ("echo: " <> text (last_of_user (reverse input.messages))))
      ∷ text_message_end (message_id input)
      ∷ run_finished input.thread_id input.run_id
      ∷ []
