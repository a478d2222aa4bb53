-- ===== src/Http/Refusals.antt =====
-- What the routes answer when souk knows no such agent, or no such thread.
use agent_souk_server.Http.{json_body, Response, handle, respond}
use agent_souk_server.Http.Routes.{
  SoukCore, agent_card_by_pair, rpc_by_pair, create_thread, run_agent_by_id,
}
use agent_souk_server.Base.{String, ◌<>◌, ◌≡◌, refl, inr, none}
use agent_souk_server.Base.Json.{Json, str, obj, Fields, end, field}

-- The response to a path whose agent souk does not know.
abbrev pub unknown_agent : String → String → Response
unknown_agent provider name = record {
  status = 404;
  body = json_body (
      obj (
        field "detail" (str ("no agent '" <> name <> "' under provider '" <> provider <> "'"))
          end));
}

module _ (souk : SoukCore) where
  -- When souk resolves no agent for the pair of a path, every route that addresses an agent by it,
  -- its card, its A2A endpoint, its threads and its AG-UI endpoint, answers with the same 404 that
  -- names the pair, and calls nothing else of souk: the state is the one that the lookup left.
  pub unknown_agent_refused :
      (provider name : String) (s t : souk.State)
      → souk.resolve_agent provider name s ≡ (inr none, t)
      → ((fingerprint : String → String) (url : String)
          → respond (agent_card_by_pair souk fingerprint url provider name) s
            ≡ (unknown_agent provider name, t))
        × ((request : Json)
            → respond (rpc_by_pair souk provider name request) s ≡ (unknown_agent provider name, t))
        × ((metadata : Fields)
            → respond (create_thread souk provider name metadata) s
              ≡ (unknown_agent provider name, t))
        × ((body : Fields)
            → respond (run_agent_by_id souk provider name body) s
              ≡ (unknown_agent provider name, t))
  unfolding agent_card_by_pair rpc_by_pair create_thread run_agent_by_id handle
  unknown_agent_refused provider name s t h =
      (λ fingerprint url. rw h refl, λ request. rw h refl, λ metadata. rw h refl, λ body. rw h refl)
