-- ===== src/Http/Roster.antt =====
-- souk_server/api_registry.py and souk_server/api_health.py, with the models of souk_server/models.py
-- that they read and write.
pub mod Names
use Prim.Native.Char.{Char, code}
use Prim.Native.String.{[], ◌∷◌, count as count_chars}
use agent_souk_server.Http.{Call, and_then, done_with}
use agent_souk_server.Docent.{AgentSummary}
use agent_souk_server.Base.{
  ℕ, String, Bool, true, ◌&&◌, ◌||◌, Option, none, some, List, [], ◌∷◌, map, leb, eqb,
  if◌then◌else◌,
}
use agent_souk_server.Base.Json.{ℤ, Json, Fields, end, field}
use agent_souk_server.Base.Text.{sorted}

-- `AgentRegistration`; what it accepts as a name is `valid_name`.
pub record AgentRegistration : Type 0 where
  pub name : String
  pub description : String
  pub agent_card_extra : Fields
  pub metadata : Fields

abbrev between : ℕ → ℕ → ℕ → Bool
between low high n = leb low n && leb n high

-- `[A-Za-z0-9_-]`
abbrev pub is_name_char : Char → Bool
is_name_char c =
    between 65 90 (code c)
    || between 97 122 (code c)
    || between 48 57 (code c)
    || eqb (code c) 95
    || eqb (code c) 45

abbrev pub all_name_chars : String → Bool
all_name_chars [] = true
all_name_chars (c ∷ s) = is_name_char c && all_name_chars s

-- `Field(min_length=1, max_length=128, pattern=r"^[A-Za-z0-9_-]+$")`
unfoldable pub valid_name : String → Bool
valid_name name = between 1 128 (count_chars name) && all_name_chars name

pub record RegisterBatchRequest : Type 0 where
  pub agents : List AgentRegistration
  pub provider_name : Option String
  pub public_key : String
  pub signature : String
  pub timestamp : ℤ

pub record LlmRegisterRequest : Type 0 where
  pub models : List String
  pub metadata : Fields
  pub public_key : String
  pub signature : String
  pub timestamp : ℤ

pub record DeletionRequest : Type 0 where
  pub name : String
  pub public_key : String
  pub signature : String
  pub timestamp : ℤ

-- A roster row on the wire, its times as souk tells them.
pub record AgentRosterEntry : Type 0 where
  pub provider_key : String
  pub fingerprint : String
  pub name : String
  pub description : String
  pub skills : List Json
  pub joined_at : String
  pub last_seen_at : ℕ
  pub online : Bool
  pub provider_name : Option String

-- An offering as souk lists it, and as the wire has it.
pub record LlmSummary : Type 0 where
  pub provider_key : String
  pub name : String
  pub metadata : Fields
  pub joined_at : String
  pub last_seen_at : ℕ
  pub online : Bool
  pub provider_name : Option String

pub record LlmOfferingEntry : Type 0 where
  pub provider_key : String
  pub fingerprint : String
  pub name : String
  pub metadata : Fields
  pub joined_at : String
  pub last_seen_at : ℕ
  pub online : Bool
  pub provider_name : Option String

-- `HealthResponse`, which is what `souk.health()` tells.
pub record Health : Type 0 where
  pub ready : Bool
  pub database : Bool
  pub database_error : Option String
  pub schema_revision : Option String
  pub expected_schema_revision : String
  pub background_running : Bool

pub record SoukRoster : Type 1 where
  pub State : Type 0
  pub list_agents : Call State (List AgentSummary)
  pub list_llm_providers : Call State (List LlmSummary)
  pub register_agents : RegisterBatchRequest → Call State Unit
  pub register_llm_providers :
      List String → Option Fields → LlmRegisterRequest → Call State (List String)
  pub delete_agent : DeletionRequest → Call State Unit
  pub delete_llm_offering : DeletionRequest → Call State Unit
  pub health : Call State Health

-- The status and the model of a response.
abbrev pub Sent : Type 0 → Type 0
Sent A = ℕ × A

-- `body.metadata or None`
abbrev or_none : Fields → Option Fields
or_none end = none
or_none (field k v fs) = some (field k v fs)

module _ (provider_fingerprint : String → String) where
  abbrev pub entry_of : AgentSummary → AgentRosterEntry
  entry_of a = record {
    provider_key = a.provider_key;
    fingerprint = provider_fingerprint a.provider_key;
    name = a.name;
    description = a.description;
    skills = a.skills;
    joined_at = a.joined_at;
    last_seen_at = a.last_seen_at;
    online = a.online;
    provider_name = a.provider_name;
  }

  abbrev offering_of : LlmSummary → LlmOfferingEntry
  offering_of o = record {
    provider_key = o.provider_key;
    fingerprint = provider_fingerprint o.provider_key;
    name = o.name;
    metadata = o.metadata;
    joined_at = o.joined_at;
    last_seen_at = o.last_seen_at;
    online = o.online;
    provider_name = o.provider_name;
  }

  module _ (souk : SoukRoster) where
    abbrev pub roster_rows : Call souk.State (List AgentRosterEntry)
    roster_rows = and_then souk.list_agents (λ agents. done_with (map entry_of agents))

    unfoldable pub list_agents : Call souk.State (Sent (List AgentRosterEntry))
    list_agents = and_then roster_rows (λ rows. done_with (200, rows))

    unfoldable pub register_agents :
        RegisterBatchRequest → Call souk.State (Sent (List AgentRosterEntry))
    register_agents body =
        and_then (souk.register_agents body)
          (λ u. and_then roster_rows (λ rows. done_with (201, rows)))

    unfoldable pub list_llm_providers : Call souk.State (Sent (List LlmOfferingEntry))
    list_llm_providers =
        and_then souk.list_llm_providers (λ offers. done_with (200, map offering_of offers))

module _ (souk : SoukRoster) where
  unfoldable pub register_llm_providers : LlmRegisterRequest → Call souk.State (Sent (List String))
  register_llm_providers body =
      and_then (souk.register_llm_providers body.models (or_none body.metadata) body)
        (λ registered. done_with (201, sorted registered))

  unfoldable pub delete_agent : DeletionRequest → Call souk.State (Sent Unit)
  delete_agent body = and_then (souk.delete_agent body) (λ u. done_with (204, tt))

  unfoldable pub delete_llm_offering : DeletionRequest → Call souk.State (Sent Unit)
  delete_llm_offering body = and_then (souk.delete_llm_offering body) (λ u. done_with (204, tt))

  unfoldable pub readiness : Call souk.State (Sent Health)
  readiness = and_then souk.health (λ health. done_with (if health.ready then 200 else 503, health))

-- `GET /healthz` asks souk nothing; the text is the model's `status`.
abbrev pub liveness : Sent String
liveness = (200, "alive")
