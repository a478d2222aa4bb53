-- ===== src/EndToEnd/Listing/Tests.antt =====
-- The theorem on listing at a souk that had another agent of the name.
use agent_souk_server.Http.{other_souk_error}
use agent_souk_server.Http.Roster.{RegisterBatchRequest, SoukRoster, entry_of, register_agents}
use agent_souk_server.Docent.{AgentSummary}
use agent_souk_server.Client.{resolved, resolve}
use agent_souk_server.Delegation.{address, resolve_address}
use agent_souk_server.Agents.Market.Selection.{config_of}
use agent_souk_server.EndToEnd.Listing.{wire_row, agent_under, registered_found}
use agent_souk_server.Base.{
  String, ◌<>◌, ◌≡◌, refl, inl, inr, true, none, some, List, [], ◌∷◌, ◌++◌, map,
}
use agent_souk_server.Base.Json.{pos}

abbrev listed : String → AgentSummary
listed key = record {
  provider_key = key;
  name = "scribe";
  description = "writes";
  skills = [];
  online = true;
  last_seen_at = 0;
  joined_at = "today";
  provider_name = none;
}

abbrev souk : SoukRoster
souk = record {
  State = List AgentSummary;
  list_agents = λ s. (inr s, s);
  list_llm_providers = λ s. (inr [], s);
  register_agents = λ body s. (inr tt, s ++ listed body.public_key ∷ []);
  register_llm_providers = λ models metadata body s. (inr models, s);
  delete_agent = λ body s. (inr tt, s);
  delete_llm_offering = λ body s. (inr tt, s);
  health = λ s. (inl (other_souk_error ""), s);
}

abbrev request : RegisterBatchRequest
request = record {
  agents = [];
  provider_name = none;
  public_key = "k2";
  signature = "sig";
  timestamp = pos 7;
}

abbrev short : String → String
short key = "fp-" <> key

abbrev both_listed : List AgentSummary
both_listed = listed "k1" ∷ listed "k2" ∷ []

registered_found_example :
    (register_agents short souk request (listed "k1" ∷ [])
      ≡ (inr (201, map (entry_of short) both_listed), both_listed))
    × (resolve "scribe" (some "k2") (map (wire_row short) both_listed)
        ≡ resolved (agent_under short "k2" "scribe" (listed "k2")))
    × (resolve_address (config_of "scribe" "k2") "http://souk/" (map (wire_row short) both_listed)
        ≡ address (record {
          url = "http://souk/a2a/fp-k2/scribe/rpc";
          provider = some "fp-k2";
          provider_key = some "k2";
          agent_name = some "scribe";
        }))
registered_found_example =
    registered_found short souk request "scribe" "http://souk/" both_listed (listed "k2")
      (listed "k1" ∷ []) both_listed both_listed refl refl refl refl (refl, (refl, tt))
