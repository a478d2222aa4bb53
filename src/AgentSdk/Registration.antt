-- ===== src/AgentSdk/Registration.antt =====
-- souk-agent-sdk/souk_agent_sdk/client.py: `register`, and the dict of agents that the constructor
-- builds. A handle and its `as_registration` are souk_provider_sdk's, as is the signature.
pub mod Signed
mod Tests
use agent_souk_server.Http.Roster.{AgentRegistration, RegisterBatchRequest}
use agent_souk_server.Base.{String, ◌≡◌, Option, List, [], ◌∷◌, map}
use agent_souk_server.Base.Json.{ℤ}
use agent_souk_server.Base.Dict.{Dict, insert}
use agent_souk_server.Base.Text.{sorted}

pub record Handles : Type 1 where
  pub Handle : Type 0
  pub name_of : Handle → String
  pub as_registration : Handle → AgentRegistration
  -- A handle is registered under its name.
  pub name_kept : (h : Handle) → (as_registration h).name ≡ name_of h

pub record Signer : Type 0 where
  pub public_key : String
  pub sign_registration : List String → String × ℤ

module _ {ℓ} {A : Type ℓ} where
  abbrev pub keys_of : Dict A → List String
  keys_of [] = []
  keys_of ((k, v) ∷ d) = k ∷ keys_of d

  abbrev pub values_of : Dict A → List A
  values_of [] = []
  values_of ((k, v) ∷ d) = v ∷ values_of d

module _ (hs : Handles) where
  abbrev pub add_agents : Dict hs.Handle → List hs.Handle → Dict hs.Handle
  add_agents d [] = d
  add_agents d (h ∷ rest) = add_agents (insert (hs.name_of h) h d) rest

  -- `{agent.name: agent for agent in agents}`
  unfoldable pub agents_by_name : List hs.Handle → Dict hs.Handle
  agents_by_name handles = add_agents [] handles

  abbrev signed_body :
      Signer → Option String → List AgentRegistration → String × ℤ → RegisterBatchRequest
  signed_body signer provider_name agents (signature, timestamp) = record {
    agents = agents;
    provider_name = provider_name;
    public_key = signer.public_key;
    signature = signature;
    timestamp = timestamp;
  }

  -- The body that `register` posts.
  unfoldable pub register_body : Signer → Option String → Dict hs.Handle → RegisterBatchRequest
  register_body signer provider_name agents =
      signed_body signer provider_name (map hs.as_registration (values_of agents))
        (signer.sign_registration (sorted (keys_of agents)))
