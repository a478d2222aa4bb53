-- ===== src/AgentSdk/Handshake.antt =====
-- `SoukProvider._handshake` and `_check_souk_identity`. The nonce, the key, the payloads and the
-- signature check are `souk_provider_sdk`'s, and come as the record `Crypto`. A frame that does not
-- come in time, or is no JSON, is `none`.
use agent_souk_server.Gateway.Wire.{equals_str}
use agent_souk_server.Base.{
  ℕ, String, ◌==◌, Bool, true, false, ◌&&◌, Option, none, some, List, [], ◌∷◌, map, if◌then◌else◌,
}
use agent_souk_server.Base.Json.{
  pos, Json, null, int, str, arr, obj, Fields, end, field, get, from_list, truthy,
}

pub record Crypto : Type 0 where
  pub public_key : String
  pub souk_connect_payload : String → String → String
  pub verify_signature : Json → String → String → Bool
  pub sign_connect : Json → String → String → List String → String

-- What this provider was told about the souk: the key that it pins, if any.
abbrev pub Pin : Type 0
Pin = Option String

-- `_check_souk_identity` returns the key that souk proved, `none` for a souk with no identity, or
-- raises `SoukIdentityMismatch`.
pub data Verdict : Type 0 where
  proves : Option Json → Verdict
  mismatch : Verdict

abbrev pub matches_pin : Pin → Json → Bool
matches_pin none key = true
matches_pin (some pin) key = equals_str key pin

abbrev pub is_signed : Crypto → Json → Json → String → Bool
is_signed c key (str signature) payload = c.verify_signature key signature payload
is_signed c key _ payload = false

abbrev pub check_key : Crypto → Pin → Json → Json → String → Verdict
check_key c none null signature payload = proves none
check_key c (some pin) null signature payload = mismatch
check_key c pin key signature payload =
    if is_signed c key signature payload && matches_pin pin key then proves (some key) else mismatch

unfoldable pub check_souk_identity : Crypto → Pin → Fields → String → String → Verdict
check_souk_identity c pin challenge provider_nonce souk_nonce =
    check_key c pin (get "soukPublicKey" challenge) (get "signature" challenge)
      (c.souk_connect_payload souk_nonce provider_nonce)

pub data Failure : Type 0 where
  no_frame not_a_dict expected_challenge no_nonce identity_mismatch expected_welcome : Failure

-- The frames sent, in order, and whether the handshake ended well (`none`).
pub record Handshake : Type 0 where
  pub sent : List Fields
  pub failed : Option Failure

abbrev pub max_runs_json : Option ℕ → Json
max_runs_json none = null
max_runs_json (some n) = int (pos n)

abbrev pub hello_frame : Crypto → List String → Option ℕ → String → Fields
hello_frame c names max_runs nonce = field "type" (str "hello") (
    field "version" (int (pos 3)) (
      field "publicKey" (str c.public_key) (
        field "agentNames" (arr (from_list (map str names)))
          (field "maxConcurrentRuns" (max_runs_json max_runs) (field "nonce" (str nonce) end)))))

abbrev pub or_empty : Option Json → Json
or_empty none = str ""
or_empty (some key) = if truthy key then key else str ""

abbrev pub proof_frame : String → Fields
proof_frame signature = field "type" (str "proof") (field "signature" (str signature) end)

abbrev pub welcomed : Option Json → Option Failure
welcomed none = some no_frame
welcomed (some (obj fs)) =
    if equals_str (get "type" fs) "welcome" then none else some expected_welcome
welcomed (some _) = some not_a_dict

module _ (c : Crypto) (pin : Pin) (names : List String) (max_runs : Option ℕ) (nonce : String) where
  abbrev pub hello_only : Failure → Handshake
  hello_only why = record { sent = hello_frame c names max_runs nonce ∷ []; failed = some why }

  abbrev pub after_check : Verdict → String → Option Json → Handshake
  after_check mismatch souk_nonce second = hello_only identity_mismatch
  after_check (proves key) souk_nonce second = record {
    sent =
        hello_frame c names max_runs nonce
        ∷ proof_frame (c.sign_connect (or_empty key) souk_nonce nonce names)
        ∷ [];
    failed = welcomed second;
  }

  abbrev pub after_nonce : Fields → Json → Option Json → Handshake
  after_nonce challenge (str souk_nonce) second =
      if souk_nonce == ""
      then hello_only no_nonce
      else after_check (check_souk_identity c pin challenge nonce souk_nonce) souk_nonce second
  after_nonce challenge _ second = hello_only no_nonce

  abbrev pub after_first : Option Json → Option Json → Handshake
  after_first none second = hello_only no_frame
  after_first (some (obj challenge)) second =
      if equals_str (get "type" challenge) "challenge"
      then after_nonce challenge (get "nonce" challenge) second
      else hello_only expected_challenge
  after_first (some _) second = hello_only not_a_dict

  -- `first` and `second` are the frames that souk sends back; `nonce` is this connection's.
  unfoldable pub handshake : Option Json → Option Json → Handshake
  handshake first second = after_first first second
