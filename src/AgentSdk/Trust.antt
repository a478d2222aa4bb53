-- ===== src/AgentSdk/Trust.antt =====
-- What a provider gives away, and to whom.
use agent_souk_server.Gateway.Wire.{equals_str, equals_str-eq}
use agent_souk_server.AgentSdk.Handshake.{
  Crypto, Pin, Verdict, proves, mismatch, is_signed, check_key, check_souk_identity, Handshake,
  hello_frame, or_empty, proof_frame, after_check, after_nonce, handshake,
}
use agent_souk_server.Base.{
  ℕ, String, ◌==◌, ◌≡◌, refl, sym, ap, ◌∙◌, ◌⊎◌, inl, inr, true, ◌&&◌, Option, none, some, List, [],
  ◌∷◌, arith, if◌then◌else◌, Bool-cases, subst,
}
use agent_souk_server.Base.Json.{Json, null, str, obj, Fields, get}

-- A signature leaves this provider only for a souk that passes its pin.
pub record IsTrusted (c : Crypto) (pin : Pin) (names : List String) (nonce : String)
    (first : Option Json) (frame : Fields) : Type 0 where
  pub challenge : Fields
  pub souk_nonce : String
  pub key : Option Json
  pub came : first ≡ some (obj challenge)
  pub kind : equals_str (get "type" challenge) "challenge" ≡ true
  pub chosen : get "nonce" challenge ≡ str souk_nonce
  pub verdict : check_souk_identity c pin challenge nonce souk_nonce ≡ proves key
  pub bound : frame ≡ proof_frame (c.sign_connect (or_empty key) souk_nonce nonce names)

proves_inj : {a b : Option Json} → proves a ≡ proves b → a ≡ b
proves_inj h = cc

mismatch-ne-proves : {a : Option Json} → mismatch ≡ proves a → ⊥
mismatch-ne-proves h = cc

-- A souk that passes a pin presents that very key and a signature by it over both nonces.
pub pinned_souk :
    (c : Crypto) (pin : String) (challenge : Fields) (provider_nonce souk_nonce : String)
    (key : Option Json)
    → check_souk_identity c (some pin) challenge provider_nonce souk_nonce ≡ proves key
    → (key ≡ some (str pin))
      × (get "soukPublicKey" challenge ≡ str pin)
      × (is_signed c
            (str pin)
            (get "signature" challenge)
            (c.souk_connect_payload souk_nonce provider_nonce)
          ≡ true)
unfolding check_souk_identity
pinned_souk c pin challenge provider_nonce souk_nonce key h =
    pinned (get "soukPublicKey" challenge) (get "signature" challenge) h
  where
    payload : String
    payload = c.souk_connect_payload souk_nonce provider_nonce

    of_key :
        (k v : Json)
        → (if is_signed c k v payload && equals_str k pin then proves (some k) else mismatch)
          ≡ proves key
        → (key ≡ some (str pin)) × (k ≡ str pin) × (is_signed c (str pin) v payload ≡ true)
    of_key k v e = elim (Bool-cases (is_signed c k v payload && equals_str k pin)) [
      | inl good ↦
          let same : k ≡ str pin = equals_str-eq k pin (ground arith) in
          (
            sym (proves_inj (rw good at e)) ∙ ap some same,
            same,
            subst (λ x. is_signed c x v payload ≡ true) same (ground arith),
          )
      | inr bad ↦ absurd (mismatch-ne-proves (rw bad at e))
    ]

    pinned :
        (k v : Json)
        → check_key c (some pin) k v payload ≡ proves key
        → (key ≡ some (str pin)) × (k ≡ str pin) × (is_signed c (str pin) v payload ≡ true)
    pinned null v e = cc
    pinned k v e = of_key k v e

module _ (c : Crypto) (pin : Pin) (names : List String) (max_runs : Option ℕ) (nonce : String) where
  abbrev pub Sends : Option Json → Handshake → Type 0
  Sends first h =
      (h.sent ≡ hello_frame c names max_runs nonce ∷ [])
      ⊎ ((frame : Fields) × (h.sent ≡ hello_frame c names max_runs nonce ∷ frame ∷ [])
          × IsTrusted c pin names nonce first frame)

  verdict-Sends :
      (challenge : Fields) (souk_nonce : String) (second : Option Json) (v : Verdict)
      → equals_str (get "type" challenge) "challenge" ≡ true
      → get "nonce" challenge ≡ str souk_nonce
      → check_souk_identity c pin challenge nonce souk_nonce ≡ v
      → Sends (some (obj challenge)) (after_check c pin names max_runs nonce v souk_nonce second)
  verdict-Sends challenge souk_nonce second mismatch t n e = inl refl
  verdict-Sends challenge souk_nonce second (proves key) t n e = inr (
    proof_frame (c.sign_connect (or_empty key) souk_nonce nonce names),
    refl,
    record {
      challenge = challenge;
      souk_nonce = souk_nonce;
      key = key;
      came = refl;
      kind = t;
      chosen = n;
      verdict = e;
      bound = refl;
    },
  )

  nonce-Sends :
      (challenge : Fields) (v : Json) (second : Option Json)
      → equals_str (get "type" challenge) "challenge" ≡ true
      → get "nonce" challenge ≡ v
      → Sends (some (obj challenge)) (after_nonce c pin names max_runs nonce challenge v second)
  nonce-Sends challenge (str souk_nonce) second t n = elim (Bool-cases (souk_nonce == "")) [
    | inl e ↦ rw e (inl refl)
    | inr e ↦ rw e (
        verdict-Sends challenge souk_nonce second
          (check_souk_identity c pin challenge nonce souk_nonce) t n refl)
  ]
  nonce-Sends challenge v second t n = inl refl

  -- The handshake sends the hello, and beyond it at most one proof: made only after a challenge frame
  -- whose souk passed the identity check, over that souk's key and nonce.
  pub handshake-Sends :
      (first second : Option Json) → Sends first (handshake c pin names max_runs nonce first second)
  unfolding handshake
  handshake-Sends none second = inl refl
  handshake-Sends (some (obj challenge)) second =
      elim (Bool-cases (equals_str (get "type" challenge) "challenge")) [
        | inl e ↦ rw e (nonce-Sends challenge (get "nonce" challenge) second e refl)
        | inr e ↦ rw e (inl refl)
      ]
  handshake-Sends (some v) second = inl refl
