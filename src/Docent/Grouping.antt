-- ===== src/Docent/Grouping.antt =====
-- How `describe_market` groups the roster into stalls.
use agent_souk_server.Docent.{AgentSummary, Site, Stall, first_name, describe_agent}
use agent_souk_server.Base.{
  ℕ, ◌+◌, String, ◌==◌, Option, none, some, List, [], ◌∷◌, ◌++◌, map, if◌then◌else◌, length, select,
  count,
}
use agent_souk_server.Base.Dict.{Dict}

-- The agents of one key, in the order of the roster.
abbrev pub kept_by : String → List AgentSummary → List AgentSummary
kept_by key ags = select (λ a. a.provider_key == key) ags

abbrev pub filled : {A : Type 0} → List A → Option (List A)
filled [] = none
filled (x ∷ xs) = some (x ∷ xs)

joined : Option (List AgentSummary) → List AgentSummary → Option (List AgentSummary)
joined none xs = filled xs
joined (some ys) xs = some (ys ++ xs)

abbrev pub stall_at : String → List Stall → Option Stall
stall_at key [] = none
stall_at key (s ∷ ss) = if s.provider_key == key then some s else stall_at key ss

-- The sum of a number over the stalls.
abbrev pub total : (Stall → ℕ) → List Stall → ℕ
total f [] = 0
total f (s ∷ ss) = f s + total f ss

module _ (site : Site) (now : ℕ) (url : String) where
  -- The stall of a key whose agents these are.
  abbrev pub stall_for : String → Option (List AgentSummary) → Option Stall
  stall_for key none = none
  stall_for key (some members) = some (record {
    provider_key = key;
    storefront_name = first_name members;
    agent_count = length members;
    online_count = count (λ a. a.online) members;
    offers = map (λ a. a.name) members;
    agents = map (describe_agent site now url) members;
  })
