-- ===== src/Docent/Tools.antt =====
-- The tools and resources of souk_server/mcp_docent.py, over the roster `souk.list_agents()`, and
-- its `transport_security_for`.
use agent_souk_server.Docent.{
  AgentSummary, Site, AgentEntry, Stall, Market, describe_agent, describe_stall, describe_market,
}
use agent_souk_server.Base.{
  ℕ, String, ◌<>◌, ◌==◌, Bool, true, false, ◌&&◌, ◌||◌, Option, none, some, List, [], ◌∷◌, ◌++◌,
  map, leb, if◌then◌else◌, length, select, count,
}
use agent_souk_server.Base.Json.{
  Json, str, arr, obj, Fields, end, field, get_field, to_list, truthy,
}
use agent_souk_server.Base.Text.{join}

-- `found: False`, with the candidates of an ambiguous name, or one entry.
pub data Answer : Type 0 where
  found : AgentEntry → Answer
  not_found : Answer
  ambiguous : List AgentEntry → Answer

pub data StallAnswer : Type 0 where
  stall_found : Stall → StallAnswer
  no_stall : StallAnswer

pub record SearchAnswer : Type 0 where
  pub query : String
  pub match_count : ℕ
  pub searched_count : ℕ
  pub agents : List AgentEntry

pub record TransportSecurity : Type 0 where
  pub enable_dns_rebinding_protection : Bool
  pub allowed_hosts : List String
  pub allowed_origins : List String

abbrev pub elem : String → List String → Bool
elem s [] = false
elem s (x ∷ xs) = if x == s then true else elem s xs

abbrev no_protection : TransportSecurity
no_protection = record {
  enable_dns_rebinding_protection = false;
  allowed_hosts = [];
  allowed_origins = [];
}

-- The MCP SDK's settings protect unless told otherwise, and start with empty lists.
unfoldable pub transport_security_for : List String → TransportSecurity
transport_security_for hosts = if elem "*" hosts then no_protection else record {
  enable_dns_rebinding_protection = true;
  allowed_hosts = hosts;
  allowed_origins = map (λ h. "http://" <> h) hosts ++ map (λ h. "https://" <> h) hosts;
}

abbrev keys : Fields → List Json
keys end = []
keys (field k v fs) = str k ∷ keys fs

module _ (site : Site) where
  -- `for tag in tags or []`: `none` is the `TypeError` of a number.
  abbrev pub tags_of : Option Json → Option (List Json)
  tags_of none = some []
  tags_of (some (arr xs)) = some (to_list xs)
  tags_of (some (obj fs)) = some (keys fs)
  tags_of (some (str s)) = some (map (λ c. str c) (site.chars s))
  tags_of (some v) = if truthy v then none else some []

  abbrev pub text_or_empty : Option Json → String
  text_or_empty none = ""
  text_or_empty (some v) = site.text v

  abbrev pub skill_words : Fields → Option (List String)
  skill_words fs = elim (tags_of (get_field "tags" fs)) [
    | none ↦ none
    | some tags ↦ some (
        text_or_empty (get_field "name" fs)
        ∷ text_or_empty (get_field "description" fs)
        ∷ map site.text tags)
  ]

  abbrev pub skills_words : List Json → Option (List String)
  skills_words [] = some []
  skills_words (obj fs ∷ skills) =
      let rest = skills_words skills in
      elim (skill_words fs) [
        | none ↦ none
        | some ws ↦ elim rest [ none ↦ none | some more ↦ some (ws ++ more) ]
      ]
  skills_words (_ ∷ skills) = skills_words skills

  abbrev pub any_word : String → List String → Bool
  any_word t [] = false
  any_word t (w ∷ ws) = if leb 3 (site.len w) && site.contains w t then true else any_word t ws

  abbrev pub text_matches : String → String → Bool
  text_matches needle t = if site.contains needle t then true else any_word t (site.split needle)

  -- `_matches`; `none` where it raises.
  unfoldable pub matches : String → AgentSummary → Option Bool
  matches needle a = elim (skills_words a.skills) [
    | none ↦ none
    | some ws ↦ some (text_matches needle (site.lower (join " " (a.name ∷ a.description ∷ ws))))
  ]

  abbrev pub search : String → List AgentSummary → Option (List AgentSummary)
  search needle [] = some []
  search needle (a ∷ ags) =
      let rest = search needle ags in
      elim (matches needle a) [
        | none ↦ none
        | some hit ↦ elim rest [ none ↦ none | some more ↦ some (if hit then a ∷ more else more) ]
      ]

  -- `provider in (a.provider_key, provider_fingerprint(a.provider_key))`
  abbrev pub is_kept_by : String → AgentSummary → Bool
  is_kept_by provider a =
      a.provider_key == provider || site.provider_fingerprint a.provider_key == provider

  abbrev pub is_pair : String → String → AgentSummary → Bool
  is_pair name provider a = a.name == name && is_kept_by provider a

  module _ (now : ℕ) (public_base_url : String) where
    unfoldable pub browse_souk : Bool → List AgentSummary → Market
    browse_souk only_online ags =
        describe_market site now public_base_url
          (if only_online then select (λ a. a.online) ags else ags)

    abbrev pub results : String → List AgentSummary → List AgentSummary → SearchAnswer
    results query ags hits = record {
      query = query;
      match_count = length hits;
      searched_count = length ags;
      agents = map (describe_agent site now public_base_url) hits;
    }

    unfoldable pub search_agents : String → List AgentSummary → Option SearchAnswer
    search_agents query ags =
        let needle : String = site.lower (site.strip query) in
        if needle == ""
        then some (results query ags ags)
        else elim (search needle ags) [ none ↦ none | some hits ↦ some (results query ags hits) ]

    abbrev pub first_of : List AgentSummary → Answer
    first_of [] = not_found
    first_of (a ∷ ags) = found (describe_agent site now public_base_url a)

    abbrev pub only_of : List AgentSummary → Answer
    only_of [] = not_found
    only_of (a ∷ []) = found (describe_agent site now public_base_url a)
    only_of (a ∷ b ∷ ags) = ambiguous (map (describe_agent site now public_base_url) (a ∷ b ∷ ags))

    -- `describe_agent_tool`; no provider is the empty text.
    unfoldable pub describe_agent_tool : String → String → List AgentSummary → Answer
    describe_agent_tool name provider ags =
        if provider == ""
        then only_of (select (λ a. a.name == name) ags)
        else first_of (select (is_pair name provider) ags)

    abbrev pub stall_answer : String → List AgentSummary → StallAnswer
    stall_answer key [] = no_stall
    stall_answer key (a ∷ ags) = stall_found (describe_stall site now public_base_url key (a ∷ ags))

    unfoldable pub describe_stall_tool : String → List AgentSummary → StallAnswer
    describe_stall_tool key ags = stall_answer key (select (λ a. a.provider_key == key) ags)

    unfoldable pub stalls : List AgentSummary → Market
    stalls ags = describe_market site now public_base_url ags

    -- `souk://agent/{provider}/{name}`
    unfoldable pub agent_resource : String → String → List AgentSummary → Answer
    agent_resource provider name [] = not_found
    agent_resource provider name (a ∷ ags) =
        if is_pair name provider a
        then found (describe_agent site now public_base_url a)
        else agent_resource provider name ags

    pub record Roster : Type 0 where
      pub agent_count : ℕ
      pub online_count : ℕ
      pub agents : List AgentEntry

    unfoldable pub roster : List AgentSummary → Roster
    roster ags = record {
      agent_count = length ags;
      online_count = count (λ a. a.online) ags;
      agents = map (describe_agent site now public_base_url) ags;
    }
