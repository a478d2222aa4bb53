-- ===== src/AgentSdk/Identity/Chains.antt =====
-- A chain of actors stays one: each hop names the hash of the hop before it, and all one subject.
use agent_souk_server.AgentSdk.Identity.{
  Jwt, last_of, prev_hash, hop_payload, sign_hop, new_actor_chain, subject_in, extend_actor_chain,
}
use agent_souk_server.Base.{
  ℕ, ◌+◌, ◌≡◌, refl, sym, ap, ◌∙◌, Option, none, some, List, [], ◌∷◌, ◌++◌, subst,
}
use agent_souk_server.Base.Json.{pos, Json, null, int, str, Fields, get_field, get}

module _ (jwt : Jwt) where
  -- A hop of a chain about a subject, after a hop with that hash, or the first one.
  pub record IsHop (subject prev : Json) (token : jwt.Token) : Type 0 where
    pub payload : Fields
    pub decodes : jwt.decode token ≡ some payload
    pub subject_is : get_field "subject" payload ≡ some subject
    pub prev_is : get_field "prevHash" payload ≡ some prev

  abbrev pub IsFrom : Json → Json → List jwt.Token → Type 0
  IsFrom subject prev [] = Unit
  IsFrom subject prev (t ∷ ts) = IsHop subject prev t × IsFrom subject (str (jwt.sha256_hex t)) ts

  abbrev pub IsChain : Json → List jwt.Token → Type 0
  IsChain subject chain = IsFrom subject null chain

  abbrev hash_after : Json → List jwt.Token → Json
  hash_after prev [] = prev
  hash_after prev (t ∷ ts) = hash_after (str (jwt.sha256_hex t)) ts

  sign_hop-IsHop :
      (key : jwt.Key) (subject : Json) (prev_token : Option jwt.Token) (now : ℕ)
      → IsHop subject (prev_hash jwt prev_token) (sign_hop jwt key subject prev_token now)
  unfolding sign_hop hop_payload
  sign_hop-IsHop key subject prev_token now = record {
    payload = hop_payload jwt key subject prev_token now;
    decodes = jwt.decode-encode key (hop_payload jwt key subject prev_token now);
    subject_is = refl;
    prev_is = refl;
  }

  IsFrom-append :
      (subject prev : Json) (ts : List jwt.Token) (t : jwt.Token)
      → IsFrom subject prev ts
      → IsHop subject (hash_after prev ts) t
      → IsFrom subject prev (ts ++ t ∷ [])
  IsFrom-append subject prev [] t h k = (k, tt)
  IsFrom-append subject prev (x ∷ xs) t h k =
      (h.0, IsFrom-append subject (str (jwt.sha256_hex x)) xs t h.1 k)

  -- The last hop of a chain that is not empty, with its subject and its hash.
  record IsLast (subject prev : Json) (ts : List jwt.Token) : Type 0 where
    token : jwt.Token
    last_is : last_of ts ≡ some token
    tells : subject_in jwt (jwt.decode token) ≡ some subject
    hash_is : hash_after prev ts ≡ str (jwt.sha256_hex token)

  IsFrom-IsLast :
      (subject prev : Json) (t : jwt.Token) (ts : List jwt.Token)
      → IsFrom subject prev (t ∷ ts)
      → IsLast subject prev (t ∷ ts)
  IsFrom-IsLast subject prev t [] h = record {
    token = t;
    last_is = refl;
    tells = ap (subject_in jwt) (h.0.decodes) ∙ h.0.subject_is;
    hash_is = refl;
  }
  IsFrom-IsLast subject prev t (u ∷ us) h =
      let l = IsFrom-IsLast subject (str (jwt.sha256_hex t)) u us h.1 in
      record { token = l.token; last_is = l.last_is; tells = l.tells; hash_is = l.hash_is }

  -- The chain that an agent starts is a chain about its subject, and so is every chain that comes of
  -- extending one that is not empty: extending does not raise, keeps every hop there was, and adds
  -- one, by the extending agent's key, that names the hash of the last hop and expires 300 seconds
  -- after it was made. Extending an empty chain raises.
  pub extend_actor_chain-IsChain :
      (key first_key : jwt.Key) (subject : Json) (now : ℕ) (t : jwt.Token) (ts : List jwt.Token)
      → IsChain subject (t ∷ ts)
      → IsChain subject (new_actor_chain jwt first_key subject now)
        × ((hop : jwt.Token) × (extend_actor_chain jwt key (t ∷ ts) now ≡ some (t ∷ ts ++ hop ∷ []))
            × IsChain subject (t ∷ ts ++ hop ∷ [])
            × ((payload : Fields) × (jwt.decode hop ≡ some payload)
                × (get "actorPublicKey" payload ≡ str (jwt.public_key_hex key))
                × (get "exp" payload ≡ int (pos (now + 300)))))
        × (extend_actor_chain jwt key [] now ≡ none)
  unfolding new_actor_chain extend_actor_chain
  extend_actor_chain-IsChain key first_key subject now t ts h =
      let l = IsFrom-IsLast subject null t ts h in
      let hop = sign_hop jwt key subject (some l.token) now in
      (
        (sign_hop-IsHop first_key subject none now, tt),
        (
          hop,
          rw (l.last_is, l.tells) refl,
          IsFrom-append subject null (t ∷ ts) hop h (
              subst (λ p. IsHop subject p hop) (sym l.hash_is)
                (sign_hop-IsHop key subject (some l.token) now)),
          (
            hop_payload jwt key subject (some l.token) now,
            jwt.decode-encode key (hop_payload jwt key subject (some l.token) now),
            refl,
            refl,
          ),
        ),
        refl,
      )
