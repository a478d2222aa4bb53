-- ===== src/AgentSdk/Identity.antt =====
-- souk-agent-sdk/souk_agent_sdk/identity.py: the payload of a registration and the chains of actors.
-- Keys, JWTs and the hash are a library's: a parameter `Jwt`, with the token of a payload and the
-- payload of a token.
pub mod Chains
mod Tests
use agent_souk_server.Base.{ℕ, ◌+◌, String, ◌<>◌, ◌≡◌, Option, none, some, List, [], ◌∷◌, ◌++◌}
use agent_souk_server.Base.Json.{pos, Json, null, int, str, Fields, end, field, get_field}
use agent_souk_server.Base.Text.{join, sorted}

pub record Jwt : Type 1 where
  pub Key : Type 0
  pub Token : Type 0
  pub public_key_hex : Key → String
  -- `jwt.encode(payload, private_key, algorithm="EdDSA")`
  pub encode : Key → Fields → Token
  -- `jwt.decode(token, options={"verify_signature": False})`, `none` when it raises
  pub decode : Token → Option Fields
  pub sha256_hex : Token → String
  -- A token carries the payload that it was made of.
  pub decode-encode : (key : Key) (payload : Fields) → decode (encode key payload) ≡ some payload

abbrev pub actor_chain_ttl_seconds : ℕ
actor_chain_ttl_seconds = 300

module _ (decimal : ℕ → String) where
  unfoldable pub registration_signing_payload : List String → ℕ → String
  registration_signing_payload agent_names timestamp =
      join "," (sorted agent_names) <> ":" <> decimal timestamp

-- `chain[-1]`
abbrev pub last_of {ℓ} : {A : Type ℓ} → List A → Option A
last_of [] = none
last_of (x ∷ []) = some x
last_of (x ∷ y ∷ ys) = last_of (y ∷ ys)

module _ (jwt : Jwt) where
  abbrev pub prev_hash : Option jwt.Token → Json
  prev_hash none = null
  prev_hash (some token) = str (jwt.sha256_hex token)

  unfoldable pub hop_payload : jwt.Key → Json → Option jwt.Token → ℕ → Fields
  hop_payload private_key subject prev_token now = field "subject" subject (
      field "actorPublicKey" (str (jwt.public_key_hex private_key)) (
        field "prevHash" (prev_hash prev_token) (
          field "iat" (int (pos now))
            (field "exp" (int (pos (now + actor_chain_ttl_seconds))) end))))

  unfoldable pub sign_hop : jwt.Key → Json → Option jwt.Token → ℕ → jwt.Token
  unfolding hop_payload
  sign_hop private_key subject prev_token now =
      jwt.encode private_key (hop_payload private_key subject prev_token now)

  unfoldable pub new_actor_chain : jwt.Key → Json → ℕ → List jwt.Token
  unfolding sign_hop
  new_actor_chain private_key subject now = sign_hop private_key subject none now ∷ []

  -- `payload["subject"]`; a missing key raises.
  abbrev pub subject_in : Option Fields → Option Json
  subject_in none = none
  subject_in (some payload) = get_field "subject" payload

  abbrev extended : jwt.Key → List jwt.Token → ℕ → jwt.Token → Option Json → Option (List jwt.Token)
  extended private_key prev_chain now token none = none
  extended private_key prev_chain now token (some subject) =
      some (prev_chain ++ sign_hop private_key subject (some token) now ∷ [])

  abbrev extended_from : jwt.Key → List jwt.Token → ℕ → Option jwt.Token → Option (List jwt.Token)
  extended_from private_key prev_chain now none = none
  extended_from private_key prev_chain now (some token) =
      extended private_key prev_chain now token (subject_in (jwt.decode token))

  -- `none` when it raises: on an empty chain, a last hop that is no JWT, or one without a subject.
  unfoldable pub extend_actor_chain : jwt.Key → List jwt.Token → ℕ → Option (List jwt.Token)
  unfolding sign_hop
  extend_actor_chain private_key prev_chain now =
      extended_from private_key prev_chain now (last_of prev_chain)
