-- ===== src/EndToEnd/Opening.antt =====
-- The handshake of `/ws/provider`, both ends of it.
use agent_souk_server.AgentSdk.Handshake.{
  Crypto, Pin, proves, matches_pin, check_souk_identity, max_runs_json, hello_frame, proof_frame,
  handshake,
}
use agent_souk_server.Gateway.Wire.{Message, arrived, parse_frame, receive_frame}
use agent_souk_server.Gateway.Core.{Python, Souk}
use agent_souk_server.Gateway.Handshake.{
  names_of, hello_error, challenge_frame, collect_connect_proof,
}
use agent_souk_server.Gateway.Handshake.Checks.{names_of-names, hello_error-IsSound}
use agent_souk_server.Base.{
  ℕ, String, ◌≡◌, refl, ◌≢◌, ◌⊎◌, inl, inr, true, Option, none, some, List, [], ◌∷◌, ==_false,
}
use agent_souk_server.Base.Json.{Json, null, str, obj, get, is_int}

-- souk's signature is made with its own key over the payload that the provider expects.
pub record Agrees (c : Crypto) (core : Souk) (souk_key : String) : Type 0 where
  pub identity : core.identity_public_key ≡ some souk_key
  pub payload : (a b : String) → core.souk_connect_payload a b ≡ c.souk_connect_payload a b
  pub verifies : (p : String) → c.verify_signature (str souk_key) (core.sign p) p ≡ true

-- The provider pins this key, or none.
abbrev pub Accepts : Pin → String → Type 0
Accepts pin souk_key = matches_pin pin (str souk_key) ≡ true

module _ (py : Python) (core : Souk) (c : Crypto) where
  hello_accepted :
      (name : String) (names : List String) (max_runs : Option ℕ) (nonce : String)
      → nonce ≢ ""
      → hello_error py (hello_frame c (name ∷ names) max_runs nonce) ≡ none
  hello_accepted name names max_runs nonce h =
      (hello_error-IsSound py (hello_frame c (name ∷ names) max_runs nonce)).1 (
        record {
          version = refl;
          public_key = (c.public_key, refl);
          nonce = (nonce, refl, h);
          names = (name, names, refl);
        },
        runs max_runs,
      )
    where
      runs : (m : Option ℕ) → (max_runs_json m ≡ null) ⊎ (is_int (max_runs_json m) ≡ true)
      runs none = inl refl
      runs (some n) = inr refl

  check_passes :
      (souk_key : String) (pin : Pin) (nonce souk_nonce : String)
      → Agrees c core souk_key
      → Accepts pin souk_key
      → check_souk_identity c pin (challenge_frame py core souk_nonce nonce) nonce souk_nonce
        ≡ proves (some (str souk_key))
  unfolding check_souk_identity challenge_frame
  check_passes souk_key none nonce souk_nonce ag ok =
      rw
        (
          ag.identity,
          ag.payload souk_nonce nonce,
          ag.verifies (c.souk_connect_payload souk_nonce nonce),
        )
        refl
  check_passes souk_key (some pin) nonce souk_nonce ag ok =
      rw
        (
          ag.identity,
          ag.payload souk_nonce nonce,
          ag.verifies (c.souk_connect_payload souk_nonce nonce),
          ok,
        )
        refl

  hello_and_proof :
      (souk_key : String) (names : List String) (pin : Pin) (max_runs : Option ℕ)
      (nonce souk_nonce : String) (second : Option Json)
      → Agrees c core souk_key
      → souk_key ≢ ""
      → Accepts pin souk_key
      → souk_nonce ≢ ""
      → (handshake c pin names max_runs nonce
          (some (obj (challenge_frame py core souk_nonce nonce)))
          second).sent
        ≡ hello_frame c names max_runs nonce
          ∷ proof_frame (c.sign_connect (str souk_key) souk_nonce nonce names)
          ∷ []
  unfolding handshake challenge_frame
  hello_and_proof souk_key names pin max_runs nonce souk_nonce second ag filled ok hs =
      rw (==_false souk_nonce "" hs, check_passes souk_key pin nonce souk_nonce ag ok)
        (rw (==_false souk_key "" filled) refl)

  -- A provider with at least one agent and a souk whose key it pins, or that pins none, agree: the
  -- hello passes the gateway's check, the challenge passes the provider's, which then sends its proof,
  -- and the gateway takes from that the provider's signature over souk's key, both nonces and exactly
  -- the names that it will attach.
  pub handshake_round_trip :
      (souk_key name : String) (names : List String) (pin : Pin) (max_runs : Option ℕ)
      (nonce : String) (m : Message) (second : Option Json) (s : core.State)
      → Agrees c core souk_key
      → souk_key ≢ ""
      → Accepts pin souk_key
      → nonce ≢ ""
      → (core.issue_connect_challenge s).0 ≢ ""
      → m.kind ≢ "websocket.disconnect"
      → parse_frame py.loads m
        ≡ some (
            proof_frame (
              c.sign_connect
                (str souk_key)
                (core.issue_connect_challenge s).0
                nonce
                (name ∷ names)))
      → (hello_error py (hello_frame c (name ∷ names) max_runs nonce) ≡ none)
        × ((handshake c pin
              (name ∷ names)
              max_runs
              nonce
              (some (obj (challenge_frame py core (core.issue_connect_challenge s).0 nonce)))
              second).sent
            ≡ hello_frame c (name ∷ names) max_runs nonce
              ∷ proof_frame (
                  c.sign_connect
                    (str souk_key)
                    (core.issue_connect_challenge s).0
                    nonce
                    (name ∷ names))
              ∷ [])
        × ((collect_connect_proof py core
              (hello_frame c (name ∷ names) max_runs nonce)
              (arrived m)
              s).1
            ≡ inr (
              (core.issue_connect_challenge s).0,
              c.sign_connect (str souk_key) (core.issue_connect_challenge s).0 nonce (name ∷ names),
            ))
        × (names_of (get "agentNames" (hello_frame c (name ∷ names) max_runs nonce)) ≡ name ∷ names)
  unfolding collect_connect_proof receive_frame
  handshake_round_trip souk_key name names pin max_runs nonce m second s ag filled ok hn hs live
        parsed =
      (
        hello_accepted name names max_runs nonce hn,
        hello_and_proof souk_key (name ∷ names) pin max_runs nonce
            (core.issue_connect_challenge s).0 second ag filled ok hs,
        rw (==_false m.kind "websocket.disconnect" live, parsed) refl,
        names_of-names (name ∷ names),
      )
