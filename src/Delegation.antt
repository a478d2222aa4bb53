-- ===== src/Delegation.antt =====
-- providers/pydantic-ai-agent/pydantic_ai_agent/resolve.py: where a sub-agent is.
pub mod Addresses
pub mod Calls
pub mod Tool
mod Tests
use agent_souk_server.Client.{Row}
use agent_souk_server.Base.{
  String, ◌<>◌, ◌==◌, Bool, ◌&&◌, ◌||◌, Option, none, some, List, [], ◌∷◌, if◌then◌else◌, select,
}
use agent_souk_server.Base.Text.{split_slash, rstrip_slash}

pub record SubAgentConfig : Type 0 where
  pub name : String
  pub agent : String
  pub provider : String
  pub a2a_url : String

pub record Address : Type 0 where
  pub url : String
  pub provider : Option String
  pub provider_key : Option String
  pub agent_name : Option String

-- `parts[-1]`, `parts[-2]`, … of the parts in reverse
abbrev pub pair_in : List String → Option (String × String)
pair_in (rpc ∷ name ∷ provider ∷ a2a ∷ rest) =
    if rpc == "rpc" && a2a == "a2a" then some (provider, name) else none
pair_in _ = none

abbrev pub reverse_onto : List String → List String → List String
reverse_onto [] ys = ys
reverse_onto (x ∷ xs) ys = reverse_onto xs (x ∷ ys)

abbrev pub explicit : String → Option (String × String) → Address
explicit url none = record { url = url; provider = none; provider_key = none; agent_name = none }
explicit url (some (provider, name)) = record {
  url = url;
  provider = some provider;
  provider_key = none;
  agent_name = some name;
}

-- `resolve_address` returns an address or raises `SubAgentUnresolvable`, for no candidate or for many.
pub data Outcome : Type 0 where
  address : Address → Outcome
  not_listed : Outcome
  ambiguous : List Row → Outcome

abbrev pub wanted : SubAgentConfig → String
wanted sub = if sub.agent == "" then sub.name else sub.agent

abbrev pub is_wanted : SubAgentConfig → Row → Bool
is_wanted sub row =
    row.name == wanted sub
    && (sub.provider == "" || row.provider_key == sub.provider || row.fingerprint == sub.provider)

abbrev pub rpc_url : String → Row → String
rpc_url base row = base <> "/a2a/" <> row.fingerprint <> "/" <> row.name <> "/rpc"

abbrev pub address_of : String → Row → Address
address_of base row = record {
  url = rpc_url base row;
  provider = some row.fingerprint;
  provider_key = some row.provider_key;
  agent_name = some row.name;
}

abbrev pub one_row : String → List Row → Outcome
one_row base [] = not_listed
one_row base (row ∷ []) = address (address_of base row)
one_row base (r ∷ s ∷ rows) = ambiguous (r ∷ s ∷ rows)

abbrev pub keep : Outcome → Option Address
keep (address a) = some a
keep _ = none

unfoldable pub address_from_url : String → Address
address_from_url url = explicit url (pair_in (reverse_onto (split_slash (rstrip_slash url)) []))

-- `rows` is the roster, read if it is needed.
unfoldable pub resolve_address : SubAgentConfig → String → List Row → Outcome
unfolding address_from_url
resolve_address sub souk_http_url rows =
    if sub.a2a_url == ""
    then one_row (rstrip_slash souk_http_url) (select (is_wanted sub) rows)
    else address (address_from_url sub.a2a_url)

-- `ResolvedAddress.get`, with the address that it holds.
unfoldable pub get_address :
    SubAgentConfig → String → Option Address → List Row → Outcome × Option Address
unfolding resolve_address
get_address sub url (some a) rows = (address a, some a)
get_address sub url none rows = (resolve_address sub url rows, keep (resolve_address sub url rows))
