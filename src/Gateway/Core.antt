-- ===== src/Gateway/Core.antt =====
-- What the sockets call and this repository does not hold: `souk.core.Souk`, the payload of
-- `souk_provider_sdk`, and Python's `json.loads` and `repr`. souk's state is passed along.
use agent_souk_server.Base.{String, Bool, Option, List}
use agent_souk_server.Base.Json.{Json}

pub record Python : Type 0 where
  pub loads : String → Option Json
  pub repr : Json → String

-- `attach` is `attach_provider` or `attach_llm_provider`, and gives the text of the error that it
-- raises; `detach` likewise. `link_query_methods` is upstream's `LINK_QUERY_METHODS`. A thread is
-- read for the key of its agent's provider.
pub record Souk : Type 1 where
  pub State : Type 0
  pub link_query_methods : List String
  pub identity_public_key : Option String
  pub sign : String → String
  pub souk_connect_payload : String → String → String
  pub issue_connect_challenge : State → String × State
  pub attach : String → List String → String → String → String → State → Option String × State
  pub detach : String → State → State
  pub report_event : Json → Json → String → State → Bool × State
  pub finish_run : Json → String → State → Bool × State
  pub get_agent : String → String → State → Bool
  pub get_thread : String → State → Option String
  pub get_thread_messages : String → State → List Json
