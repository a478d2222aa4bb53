-- ===== src/Docent/Tests.antt =====
-- The docent's theorems at a small roster.
use agent_souk_server.Docent.{AgentSummary, Site, describe_agent, describe_market}
use agent_souk_server.Docent.Tools.{found, SearchAnswer, describe_agent_tool}
use agent_souk_server.Docent.Lookup.{describe_agent_tool_unique}
use agent_souk_server.Base.{
  String, ◌<>◌, ◌==◌, ◌≡◌, refl, ◌↔◌, Bool, true, false, none, List, [], ◌∷◌,
}
use agent_souk_server.Base.Json.{str, arr, obj, nil, cons, end, field}

-- Text methods that are enough for the texts below.
abbrev site : Site
site = record {
  provider_fingerprint = λ key. "fp-" <> key;
  agent_card_path = "/card";
  strip = λ s. s;
  lower = λ s. s;
  split = λ s. s ∷ [];
  len = λ s. 6;
  chars = λ s. [];
  contains = λ s t. t == "scribe writes";
  text = λ v. "?";
}

abbrev agent : String → String → Bool → AgentSummary
agent key name online = record {
  provider_key = key;
  name = name;
  description = "writes";
  skills = [];
  online = online;
  last_seen_at = 0;
  joined_at = "today";
  provider_name = none;
}

-- Two stalls, one of which keeps two agents.
abbrev town : List AgentSummary
town = agent "k1" "scribe" true ∷ agent "k2" "poet" false ∷ agent "k1" "poet" false ∷ []

counts : (describe_market site 0 "url" town).provider_count ≡ 2
unfolding describe_market
counts = refl

describe_agent_tool_unique_example :
    (describe_agent_tool site 0 "url" "scribe" "" town
      ≡ found (describe_agent site 0 "url" (agent "k1" "scribe" true)))
    ↔ ((a : AgentSummary) × (◌≡◌ {A = List AgentSummary} (agent "k1" "scribe" true ∷ []) (a ∷ []))
        × (describe_agent site 0 "url" a ≡ describe_agent site 0 "url" (agent "k1" "scribe" true)))
describe_agent_tool_unique_example =
    describe_agent_tool_unique site 0 "url" "scribe" town
      (describe_agent site 0 "url" (agent "k1" "scribe" true))

-- A third stall, whose agent has a skill.
abbrev bard : AgentSummary
bard = record {
  provider_key = "k3";
  name = "bard";
  description = "sings";
  skills = obj (field "tags" (arr (cons (str "songs") nil)) end) ∷ [];
  online = true;
  last_seen_at = 0;
  joined_at = "today";
  provider_name = none;
}

abbrev one_hit : SearchAnswer
one_hit = record {
  query = "scribe";
  match_count = 1;
  searched_count = 2;
  agents = describe_agent site 0 "url" (agent "k1" "scribe" true) ∷ [];
}
