-- ===== src/Agents/Model.antt =====
-- providers/pydantic-ai-agent/pydantic_ai_agent/main.py: which model a run uses. The environment and
-- the validation of `KyokForwardedProps`, which gives the token, are parameters.
pub mod Names
use agent_souk_server.Base.{String, ◌<>◌, ◌==◌, ◌||◌, Option, none, some, if◌then◌else◌, is_some}
use agent_souk_server.Base.Json.{Json, null, obj, Fields, get, is_null}
use agent_souk_server.Base.Text.{rstrip_slash, after_prefix, remove_prefix}

-- A model of the library's own, by its name, or an OpenAI-compatible endpoint.
pub data Model : Type 0 where
  by_name : String → Model
  openai_chat : String → String → String → Model

abbrev named_or : Option String → String → Option String
named_or default name = if name == "" then default else some name

abbrev with_provider : Option String → Option String → Option String → Option Model
with_provider (some name) (some base_url) (some api_key) = some (openai_chat name base_url api_key)
with_provider _ _ _ = none

-- `os.environ[…]` raises `KeyError`, here `none`, on a variable that is not set.
module _ (environ : String → Option String) where
  unfoldable pub resolve_model : String → Option Model
  resolve_model model =
      if model == "custom-openai" || is_some (after_prefix "custom-openai:" model)
      then with_provider
          (named_or (environ "LLM_MODEL_NAME")
            (remove_prefix "custom-openai" (remove_prefix "custom-openai:" model)))
          (environ "LLM_BASE_URL") (environ "LLM_API_KEY")
      else some (by_name model)

abbrev kyok_entry : Json → Json
kyok_entry (obj forwarded) = get "kyok" forwarded
kyok_entry _ = null

abbrev kyok_model : String → Option String → Option Model
kyok_model souk_http_url none = none
kyok_model souk_http_url (some token) =
    some (openai_chat "kyok" (rstrip_slash souk_http_url <> "/kyok/v1") token)

module _ (validate : Json → Option String) where
  unfoldable pub resolve_kyok_model : Fields → String → Option Model
  resolve_kyok_model run_input souk_http_url =
      let raw = kyok_entry (get "forwardedProps" run_input) in
      if is_null raw then none else kyok_model souk_http_url (validate raw)
