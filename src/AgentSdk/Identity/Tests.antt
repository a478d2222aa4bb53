-- ===== src/AgentSdk/Identity/Tests.antt =====
-- The theorem on chains at tokens that are their payloads.
use agent_souk_server.AgentSdk.Identity.{Jwt, new_actor_chain, extend_actor_chain}
use agent_souk_server.AgentSdk.Identity.Chains.{IsChain, extend_actor_chain-IsChain}
use agent_souk_server.Base.{String, ◌≡◌, refl, none, some, [], ◌∷◌}
use agent_souk_server.Base.Json.{pos, null, int, str, Fields, end, field, get}

abbrev plain : Jwt
plain = record {
  Key = String;
  Token = Fields;
  public_key_hex = λ key. key;
  encode = λ key payload. payload;
  decode = λ token. some token;
  sha256_hex = λ token. "hash";
  decode-encode = λ key payload. refl;
}

abbrev first_hop : Fields
first_hop =
    field "subject" (str "user-1") (field "actorPublicKey" (str "k1") (field "prevHash" null end))

extend_actor_chain-IsChain_example :
    IsChain plain (str "user-1") (new_actor_chain plain "k0" (str "user-1") 5)
    × ((hop : Fields) × (extend_actor_chain plain "k2" (first_hop ∷ []) 5
          ≡ some (first_hop ∷ hop ∷ []))
        × IsChain plain (str "user-1") (first_hop ∷ hop ∷ [])
        × ((payload : Fields) × (some hop ≡ some payload)
            × (get "actorPublicKey" payload ≡ str "k2")
            × (get "exp" payload ≡ int (pos 305))))
    × (extend_actor_chain plain "k2" [] 5 ≡ none)
extend_actor_chain-IsChain_example =
    extend_actor_chain-IsChain plain "k2" "k0" (str "user-1") 5 first_hop []
      (record { payload = first_hop; decodes = refl; subject_is = refl; prev_is = refl }, tt)
