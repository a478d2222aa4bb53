-- ===== src/Http/Routes.antt =====
-- souk_server/api_a2a.py and souk_server/api_agui.py: the routes that name an agent or a thread.
use agent_souk_server.Http.{
  agent_not_found, event_stream, Response, ok, AgentRef, Call, and_then, raise, done_with,
  resolve_ref,
}
use agent_souk_server.Base.{String, ◌<>◌, Bool, true, false, Option, none, some, List, [], ◌∷◌}
use agent_souk_server.Base.Json.{Json, str, obj, Fields, end, field}
use agent_souk_server.Base.Text.{rstrip_slash}

pub record ServedInterface : Type 0 where
  pub url : String
  pub binding : String

-- What `handle_rpc` gives: an answer, or a stream, as the data of its events.
pub data RpcResult : Type 0 where
  answer : Json → RpcResult
  a2a_stream : List String → RpcResult

-- What `AGUIAdapter.run` gives: a snapshot of a thread with a live run, or the stream of a new run.
pub data RunResult : Type 0 where
  thread_snapshot : Json → RunResult
  run_stream : List String → RunResult

pub record SoukCore : Type 1 where
  pub State : Type 0
  pub resolve_agent : String → String → Call State (Option AgentRef)
  pub get_agent : AgentRef → Call State Bool
  pub create_thread : AgentRef → Fields → Call State String
  pub get_thread_snapshot : String → Call State (Option Fields)
  pub get_thread_tree : String → Call State (Option Fields)
  pub agent_card : AgentRef → List ServedInterface → Call State Fields
  pub handle_rpc : AgentRef → Json → Call State RpcResult
  pub run_agent : AgentRef → Fields → Call State RunResult

module _ (provider_fingerprint : String → String) (public_http_url : String) where
  unfoldable pub interfaces : AgentRef → List ServedInterface
  interfaces agent =
      let base : String = rstrip_slash public_http_url in
      record {
        url =
            base
            <> "/a2a/"
            <> provider_fingerprint agent.provider_key
            <> "/"
            <> agent.name
            <> "/rpc";
        binding = "JSONRPC";
      }
      ∷ []

abbrev rpc_response : RpcResult → Response
rpc_response (answer v) = ok v
rpc_response (a2a_stream es) = record { status = 200; body = event_stream es }

abbrev run_response : RunResult → Response
run_response (thread_snapshot v) = ok v
run_response (run_stream es) = record { status = 200; body = event_stream es }

module _ (souk : SoukCore) where
  module _ (provider_fingerprint : String → String) (public_http_url : String) where
    unfoldable pub agent_card_by_pair : String → String → Call souk.State Response
    agent_card_by_pair provider name =
        and_then (resolve_ref souk.resolve_agent provider name) (λ agent.
          and_then (souk.agent_card agent (interfaces provider_fingerprint public_http_url agent))
            (λ card. done_with (ok (obj card))))

  unfoldable pub rpc_by_pair : String → String → Json → Call souk.State Response
  rpc_by_pair provider name request =
      and_then (resolve_ref souk.resolve_agent provider name) (λ agent.
        and_then (souk.handle_rpc agent request) (λ result. done_with (rpc_response result)))

  abbrev checked : AgentRef → Bool → Call souk.State Unit
  checked agent true = done_with tt
  checked agent false =
      raise (agent_not_found ("agent '" <> agent.name <> "' is not registered for that provider"))

  abbrev create_for : AgentRef → Fields → Call souk.State Response
  create_for agent metadata = and_then (souk.get_agent agent) (λ there.
      and_then (checked agent there) (λ u.
        and_then (souk.create_thread agent metadata)
          (λ id. done_with (ok (obj (field "thread_id" (str id) end))))))

  unfoldable pub create_thread : String → String → Fields → Call souk.State Response
  create_thread provider name metadata =
      and_then (resolve_ref souk.resolve_agent provider name) (λ agent. create_for agent metadata)

  abbrev thread_response : String → Option Fields → Call souk.State Response
  thread_response thread_id none =
      raise (agent_not_found ("thread '" <> thread_id <> "' not found"))
  thread_response thread_id (some fs) = done_with (ok (obj fs))

  unfoldable pub get_thread_snapshot : String → Call souk.State Response
  get_thread_snapshot thread_id =
      and_then (souk.get_thread_snapshot thread_id) (thread_response thread_id)

  unfoldable pub get_thread_tree : String → Call souk.State Response
  get_thread_tree thread_id = and_then (souk.get_thread_tree thread_id) (thread_response thread_id)

  unfoldable pub run_agent_by_id : String → String → Fields → Call souk.State Response
  run_agent_by_id provider name body =
      and_then (resolve_ref souk.resolve_agent provider name)
        (λ agent. and_then (souk.run_agent agent body) (λ result. done_with (run_response result)))
