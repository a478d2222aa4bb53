-- ===== src/Agents/Market/Selection.antt =====
-- One name and one provider select the same agent, whoever resolves them.
use agent_souk_server.Client.{
  Row, Agent, agent_of, roster, is_candidate, resolved, agent_not_found, ambiguous_name, sole,
  resolve,
}
use agent_souk_server.Delegation.{
  SubAgentConfig, address, not_listed, ambiguous, one_row, resolve_address,
}
use agent_souk_server.Agents.Market.{
  Problem, Words, or_else, is_match, told_card, card_of_matches, get_agent_card,
}
use agent_souk_server.Base.{
  String, ◌<>◌, ◌==◌, ◌≡◌, refl, ap, ◌⊎◌, inl, inr, Bool, true, false, ◌&&◌, ◌||◌, Option, none,
  some, List, [], ◌∷◌, map, if◌then◌else◌, Bool-cases, select,
}
use agent_souk_server.Base.Json.{Fields}
use agent_souk_server.Base.Text.{rstrip_slash, join}

abbrev pub none_if_empty : String → Option String
none_if_empty s = if s == "" then none else some s

abbrev pub config_of : String → String → SubAgentConfig
config_of agent_name provider = record {
  name = agent_name;
  agent = "";
  provider = provider;
  a2a_url = "";
}

or_comm : (a b : Bool) → (a || b) ≡ (b || a)
or_comm true true = refl
or_comm true false = refl
or_comm false true = refl
or_comm false false = refl

is_candidate-is_match :
    (name provider : String) (row : Row)
    → is_candidate name (none_if_empty provider) (agent_of row) ≡ is_match name provider row
is_candidate-is_match name provider row = elim (Bool-cases (provider == "")) [
  | inl e ↦ rw e refl
  | inr e ↦ rw e (
      ap (λ b. row.name == name && b)
        (or_comm (row.fingerprint == provider) (row.provider_key == provider)))
]

pub candidates-matches :
    (name provider : String) (rows : List Row)
    → select (is_candidate name (none_if_empty provider)) (roster rows)
      ≡ map agent_of (select (is_match name provider) rows)
candidates-matches name provider [] = refl
candidates-matches name provider (row ∷ rows) =
    rw (is_candidate-is_match name provider row) (elim (Bool-cases (is_match name provider row)) [
      | inl e ↦ rw e (ap (◌∷◌ (agent_of row)) (candidates-matches name provider rows))
      | inr e ↦ rw e (candidates-matches name provider rows)
    ])

-- A row as `resolve` gives it.
abbrev pub agent_at : Row → Agent
agent_at row = record {
  provider = row.fingerprint;
  name = row.name;
  provider_key = row.provider_key;
  description = row.description;
  online = row.online;
  provider_name = row.provider_name;
}

-- How a stall is told from the others of its kind.
abbrev pub stall_text : Row → String
stall_text row = or_else row.provider_name "unnamed" <> " (provider=" <> row.fingerprint <> ")"

module _ (words : Words) (card_at : String → Problem ⊎ Fields) (url agent_name provider : String)
    (rows : List Row) where
  -- The rows of this name and of this provider, by its key or its fingerprint; an empty provider is
  -- any.
  abbrev pub meant : List Row
  meant =
      select
        (λ row.
          row.name == agent_name
          && (provider == "" || row.provider_key == provider || row.fingerprint == provider))
        rows

  -- What the three say if these are the rows that are meant.
  abbrev pub Concur : List Row → Type 0
  Concur [] =
      (resolve agent_name (none_if_empty provider) rows ≡ agent_not_found)
      × (resolve_address (config_of agent_name provider) url rows ≡ not_listed)
      × (get_agent_card words card_at url agent_name provider (inr rows)
          ≡ "Agent '" <> agent_name <> "' was not found on this souk.")
  Concur (row ∷ []) =
      (resolve agent_name (none_if_empty provider) rows ≡ resolved (agent_at row))
      × (resolve_address (config_of agent_name provider) url rows
          ≡ address (record {
            url = rstrip_slash url <> "/a2a/" <> row.fingerprint <> "/" <> row.name <> "/rpc";
            provider = some row.fingerprint;
            provider_key = some row.provider_key;
            agent_name = some row.name;
          }))
      × (get_agent_card words card_at url agent_name provider (inr rows)
          ≡ told_card words agent_name (
              card_at (
                url <> "/a2a/" <> row.fingerprint <> "/" <> row.name
                <> "/.well-known/agent-card.json")))
  Concur (r ∷ s ∷ rest) =
      (resolve agent_name (none_if_empty provider) rows
        ≡ ambiguous_name (agent_at r ∷ agent_at s ∷ map agent_at rest))
      × (resolve_address (config_of agent_name provider) url rows ≡ ambiguous (r ∷ s ∷ rest))
      × (get_agent_card words card_at url agent_name provider (inr rows)
          ≡ "Several stalls offer '"
            <> agent_name
            <> "': "
            <> join ", " (map stall_text (r ∷ s ∷ rest))
            <> ". Ask again with the provider of the one you meant.")

  Picks : List Row → Type 0
  Picks ms =
      (resolve agent_name (none_if_empty provider) rows ≡ sole (map agent_of ms))
      × (resolve_address (config_of agent_name provider) url rows ≡ one_row (rstrip_slash url) ms)
      × (get_agent_card words card_at url agent_name provider (inr rows)
          ≡ card_of_matches words card_at url agent_name ms)
