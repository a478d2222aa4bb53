-- ===== src/Agents/Market.antt =====
-- providers/pydantic-ai-agent/pydantic_ai_agent/souk_tools.py: the tools that tell a model what the
-- souk offers. The answers of the gateway, the texts of a value, an exception, a number and the
-- guides are parameters; a row of the roster is what souk_server/api_registry.py gives.
pub mod Selection
use agent_souk_server.Client.{Row}
use agent_souk_server.Base.{
  ℕ, ◌-◌, String, ◌<>◌, ◌==◌, ◌⊎◌, inl, inr, Bool, true, false, ◌&&◌, ◌||◌, Option, none, some,
  List, [], ◌∷◌, map, if◌then◌else◌, length, select, count,
}
use agent_souk_server.Base.Json.{Json, str, arr, obj, nil, cons, Fields, end, get_field, to_list}
use agent_souk_server.Base.Text.{join}

-- What ends a tool's `try`: an exception of the request, with its text; a card whose skills have
-- no `get`, or a name that is no text.
pub data Problem : Type 0 where
  request_failed : String → Problem
  no_get : Problem
  not_text : Problem

pub record Words : Type 0 where
  pub text : Json → String
  pub dumps : Json → String
  pub dumps_indented : Json → String
  pub decimal : ℕ → String
  pub explain : Problem → String

abbrev pub or_else : Option String → String → String
or_else none default = default
or_else (some s) default = if s == "" then default else s

abbrev status_word : Bool → String
status_word true = "online"
status_word false = "offline"

abbrev description_of : Row → String
description_of row = if row.description == "" then "(no description)" else row.description

abbrev agent_line : Row → String
agent_line row =
    "- "
    <> row.name
    <> " @ "
    <> or_else row.provider_name row.fingerprint
    <> " ("
    <> status_word row.online
    <> ", provider="
    <> row.fingerprint
    <> "): "
    <> description_of row

abbrev pub is_online : Row → Bool
is_online row = row.online

abbrev listing : List Row → String
listing [] = "No agents are currently registered on this souk."
listing (row ∷ rows) = join "\n" (map agent_line (row ∷ rows))

module _ (words : Words) where
  -- The roster is what `GET /agents` gave, or the exception.
  unfoldable pub list_souk_agents : Bool → Problem ⊎ List Row → String
  list_souk_agents include_offline (inl e) = "Error listing souk agents: " <> words.explain e
  list_souk_agents include_offline (inr rows) =
      listing (if include_offline then rows else select is_online rows)

abbrev pub is_match : String → String → Row → Bool
is_match agent_name provider row =
    row.name == agent_name
    && (provider == "" || row.provider_key == provider || row.fingerprint == provider)

abbrev pub card_url : String → Row → String
card_url souk_http_url row =
    souk_http_url <> "/a2a/" <> row.fingerprint <> "/" <> row.name <> "/.well-known/agent-card.json"

abbrev stall_line : Row → String
stall_line row = or_else row.provider_name "unnamed" <> " (provider=" <> row.fingerprint <> ")"

-- `card.get(key, default)`
abbrev get_or : String → Json → Fields → Json
get_or key default fs = elim (get_field key fs) [ none ↦ default | some v ↦ v ]

abbrev with_name : Json → Problem ⊎ List String → Problem ⊎ List String
with_name v (inl e) = inl e
with_name (str s) (inr names) = inr (s ∷ names)
with_name v (inr names) = inl not_text

-- `s.get("name", "unnamed") for s in skills`; the names are joined once all are there.
abbrev skill_names : List Json → Problem ⊎ List String
skill_names [] = inr []
skill_names (obj fs ∷ skills) = with_name (get_or "name" (str "unnamed") fs) (skill_names skills)
skill_names (_ ∷ skills) = inl no_get

abbrev skills_text : Json → Problem ⊎ String
skills_text (arr (cons x xs)) = elim (skill_names (x ∷ to_list xs)) [
  | inl e ↦ inl e
  | inr names ↦ inr (join ", " names)
]
skills_text v = inr "None listed"

module _ (words : Words) where
  abbrev card_text : String → Fields → String → String
  card_text agent_name card skills = join "\n" (
      ("### Agent Card: "
        <> words.text (get_or "name" (str agent_name) card)
        <> " (v"
        <> words.text (get_or "version" (str "1.0.0") card)
        <> ")")
      ∷ ("**Description**: "
          <> words.text (get_or "description" (str "No description provided.") card))
      ∷ ("**Skills**: " <> skills)
      ∷ ("**Authentication**: " <> words.dumps (get_or "authentication" (obj end) card))
      ∷ ("**Full Card JSON**:\n```json\n" <> words.dumps_indented (obj card) <> "\n```")
      ∷ [])

  abbrev card_error : String → Problem → String
  card_error agent_name e =
      "Error fetching agent card for '" <> agent_name <> "': " <> words.explain e

  abbrev pub told_card : String → Problem ⊎ Fields → String
  told_card agent_name (inl e) = card_error agent_name e
  told_card agent_name (inr card) = elim (skills_text (get_or "skills" (arr nil) card)) [
    | inl e ↦ card_error agent_name e
    | inr skills ↦ card_text agent_name card skills
  ]

  -- The gateway is asked for a card by its URL.
  abbrev pub card_of_matches : (String → Problem ⊎ Fields) → String → String → List Row → String
  card_of_matches card_at souk_http_url agent_name [] =
      "Agent '" <> agent_name <> "' was not found on this souk."
  card_of_matches card_at souk_http_url agent_name (row ∷ []) =
      told_card agent_name (card_at (card_url souk_http_url row))
  card_of_matches card_at souk_http_url agent_name (r ∷ s ∷ rows) =
      "Several stalls offer '"
      <> agent_name
      <> "': "
      <> join ", " (map stall_line (r ∷ s ∷ rows))
      <> ". Ask again with the provider of the one you meant."

  unfoldable pub get_agent_card :
      (String → Problem ⊎ Fields) → String → String → String → Problem ⊎ List Row → String
  get_agent_card card_at souk_http_url agent_name provider (inl e) = card_error agent_name e
  get_agent_card card_at souk_http_url agent_name provider (inr rows) =
      card_of_matches card_at souk_http_url agent_name (select (is_match agent_name provider) rows)

  -- `category`: only "offline" leaves the names out.
  abbrev names_line : Bool → List Row → List String
  names_line false online = []
  names_line true [] = []
  names_line true (row ∷ rows) =
      ("- **Currently Online**: " <> join ", " (map (λ r. r.name) (row ∷ rows))) ∷ []

  unfoldable pub get_souk_stats : Bool → String → Problem ⊎ List Row → String
  get_souk_stats with_online souk_http_url (inl e) =
      "Error fetching souk statistics: " <> words.explain e
  get_souk_stats with_online souk_http_url (inr rows) =
      let total = length rows in
      let online = count is_online rows in
      join "\n" (
        "### Souk Platform Real-time Status"
        ∷ ("- **Gateway Connection**: Connected (" <> souk_http_url <> ")")
        ∷ ("- **Total Registered Agents**: " <> words.decimal total)
        ∷ ("- **Online Agents**: " <> words.decimal online)
        ∷ ("- **Offline Agents**: " <> words.decimal (total - online))
        ∷ names_line with_online (select is_online rows))

-- `DEV_GUIDES`, by its four keys.
pub record DevGuides : Type 0 where
  pub architecture : String
  pub how_to_connect : String
  pub identity : String
  pub quickstart : String

abbrev unknown_topic : DevGuides → String → String
unknown_topic guides topic =
    "Unknown topic '" <> topic
    <> "'. Available topics: architecture, how_to_connect, identity, quickstart\n\n"
    <> guides.quickstart

abbrev guide_for : DevGuides → String → String → String
guide_for guides topic topic_clean =
    if topic_clean == "architecture"
    then guides.architecture
    else if topic_clean == "how_to_connect"
    then guides.how_to_connect
    else if topic_clean == "identity"
    then guides.identity
    else if topic_clean == "quickstart"
    then guides.quickstart
    else unknown_topic guides topic

-- `strip` and `lower` are Python's.
unfoldable pub get_souk_developer_guide :
    (String → String) → (String → String) → DevGuides → String → String
get_souk_developer_guide strip lower guides topic = guide_for guides topic (lower (strip topic))
