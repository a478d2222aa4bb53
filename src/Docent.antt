-- ===== src/Docent.antt =====
-- souk_server/mcp_docent.py: how the docent describes agents, stalls and the market. The dicts that
-- it answers with are records with the keys as fields. A summary is souk's; its times are counted in
-- microseconds, and a fingerprint is `provider_fingerprint` of its key.
pub mod Tools
pub mod Seen
pub mod Grouping
pub mod Lookup
pub mod Search
mod Tests
use agent_souk_server.Base.{
  ◌/◌, ℕ, ◌-◌, String, ◌<>◌, ◌==◌, Bool, Option, none, some, List, [], ◌∷◌, ◌++◌, map, ltb,
  if◌then◌else◌, length, count,
}
use agent_souk_server.Base.Json.{Json}
use agent_souk_server.Base.Dict.{Dict}
use agent_souk_server.Base.Text.{rstrip_slash}

pub record AgentSummary : Type 0 where
  pub provider_key : String
  pub name : String
  pub description : String
  pub skills : List Json
  pub online : Bool
  pub last_seen_at : ℕ
  pub joined_at : String
  pub provider_name : Option String

-- `provider_fingerprint` and `AGENT_CARD_WELL_KNOWN_PATH` are upstream's; the others are methods of
-- Python's `str`, and `text` is `str` itself. `contains t s` is
-- `t in s`.
pub record Site : Type 0 where
  pub provider_fingerprint : String → String
  pub agent_card_path : String
  pub strip : String → String
  pub lower : String → String
  pub split : String → List String
  pub len : String → ℕ
  pub chars : String → List String
  pub contains : String → String → Bool
  pub text : Json → String

-- `f"{count}{unit} ago"`
pub data TimeUnit : Type 0 where
  second minute hour day : TimeUnit

pub record Ago : Type 0 where
  pub count_of : ℕ
  pub unit : TimeUnit

abbrev ago : ℕ → TimeUnit → Ago
ago n u = record { count_of = n; unit = u }

abbrev pub of_seconds : ℕ → Ago
of_seconds seconds =
    if ltb seconds 90
    then ago seconds second
    else if ltb seconds 5400
    then ago (seconds / 60) minute
    else if ltb seconds 172800
    then ago (seconds / 3600) hour
    else ago (seconds / 86400) day

-- `max(0, int(…))`: a time that is still to come counts as now.
unfoldable pub seen_ago : ℕ → ℕ → Ago
seen_ago now last_seen_at =
    if ltb now last_seen_at then of_seconds 0 else of_seconds ((now - last_seen_at) / 1000000)

pub record Keeper : Type 0 where
  pub public_key : String
  pub fingerprint : String
  pub storefront_name : Option String

pub record AgentEntry : Type 0 where
  pub provider_key : String
  pub name : String
  pub description : String
  pub skills : List Json
  pub online : Bool
  pub last_seen : Ago
  pub listed_since : String
  pub provider : Keeper
  pub a2a_endpoint : String
  pub agent_card_url : String

pub record Stall : Type 0 where
  pub provider_key : String
  pub storefront_name : Option String
  pub agent_count : ℕ
  pub online_count : ℕ
  pub offers : List String
  pub agents : List AgentEntry

pub record Market : Type 0 where
  pub agent_count : ℕ
  pub online_count : ℕ
  pub provider_count : ℕ
  pub providers : List Stall

-- `next((a.provider_name for a in agents if a.provider_name), None)`
abbrev pub first_name : List AgentSummary → Option String
first_name [] = none
first_name (a ∷ ags) = elim a.provider_name [
  | none ↦ first_name ags
  | some n ↦ if n == "" then first_name ags else some n
]

-- `stalls.setdefault(key, []).append(agent)`
abbrev pub add_to_stall : AgentSummary → Dict (List AgentSummary) → Dict (List AgentSummary)
add_to_stall a [] = (a.provider_key, a ∷ []) ∷ []
add_to_stall a ((k, ags) ∷ d) =
    if k == a.provider_key then (k, ags ++ a ∷ []) ∷ d else (k, ags) ∷ add_to_stall a d

abbrev pub group_into : Dict (List AgentSummary) → List AgentSummary → Dict (List AgentSummary)
group_into d [] = d
group_into d (a ∷ ags) = group_into (add_to_stall a d) ags

-- `now`, and `public_base_url`, are the same for the whole of an answer.
module _ (site : Site) (now : ℕ) (public_base_url : String) where
  unfoldable pub describe_agent : AgentSummary → AgentEntry
  describe_agent a =
      let base : String = rstrip_slash public_base_url in
      let fingerprint : String = site.provider_fingerprint a.provider_key in
      record {
        provider_key = a.provider_key;
        name = a.name;
        description = a.description;
        skills = a.skills;
        online = a.online;
        last_seen = seen_ago now a.last_seen_at;
        listed_since = a.joined_at;
        provider = record {
          public_key = a.provider_key;
          fingerprint = fingerprint;
          storefront_name = a.provider_name;
        };
        a2a_endpoint = base <> "/a2a/" <> fingerprint <> "/" <> a.name <> "/rpc";
        agent_card_url = base <> "/a2a/" <> fingerprint <> "/" <> a.name <> site.agent_card_path;
      }

  unfoldable pub describe_stall : String → List AgentSummary → Stall
  describe_stall public_key ags = record {
    provider_key = public_key;
    storefront_name = first_name ags;
    agent_count = length ags;
    online_count = count (λ a. a.online) ags;
    offers = map (λ a. a.name) ags;
    agents = map describe_agent ags;
  }

  abbrev pub stall_of : String × List AgentSummary → Stall
  stall_of (key, members) = describe_stall key members

  unfoldable pub describe_market : List AgentSummary → Market
  describe_market ags = record {
    agent_count = length ags;
    online_count = count (λ a. a.online) ags;
    provider_count = length (group_into [] ags);
    providers = map stall_of (group_into [] ags);
  }
