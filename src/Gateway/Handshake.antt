-- ===== src/Gateway/Handshake.antt =====
-- The opening of both sockets: `_hello_error` of souk_server/ws_provider.py and of
-- souk_server/ws_kyok.py, and `collect_connect_proof`.
pub mod Checks
use agent_souk_server.Gateway.Wire.{Received, Close, policy_violation, equals_str, receive_frame}
use agent_souk_server.Gateway.Core.{Python, Souk}
use agent_souk_server.Base.{
  ℕ, String, ◌<>◌, ◌==◌, ◌⊎◌, inl, inr, Bool, true, false, not, ◌&&◌, Option, none, some, List, [],
  ◌∷◌, if◌then◌else◌, all,
}
use agent_souk_server.Base.Json.{
  Json, null, str, arr, nil, cons, Fields, end, field, get, to_list, is_null, is_int, equals_int,
}

-- souk_server/handshake.py
abbrev pub handshake_version : ℕ
handshake_version = 3

abbrev is_str : Json → Bool
is_str (str s) = true
is_str _ = false

-- `isinstance(v, list) and v and all(isinstance(n, str) for n in v)`
abbrev pub is_names : Json → Bool
is_names (arr nil) = false
is_names (arr (cons x xs)) = is_str x && all is_str (to_list xs)
is_names _ = false

-- `isinstance(v, str) and v`
abbrev pub is_filled : Json → Bool
is_filled (str s) = not (s == "")
is_filled _ = false

-- The members of a list that passed `is_names`.
abbrev texts : List Json → List String
texts [] = []
texts (str s ∷ xs) = s ∷ texts xs
texts (_ ∷ xs) = texts xs

abbrev pub names_of : Json → List String
names_of (arr xs) = texts (to_list xs)
names_of _ = []

abbrev pub text_of : Json → String
text_of (str s) = s
text_of _ = ""

module _ (py : Python) where
  abbrev version_error : String → Json → Option String
  version_error missing null = some missing
  version_error missing version =
      some ("unsupported handshake version " <> py.repr version <> "; this souk speaks v3")

  -- ws_provider.py
  unfoldable pub hello_error : Fields → Option String
  hello_error hello =
      if not (equals_int (get "version" hello) handshake_version)
      then version_error
          "hello has no version: this souk speaks handshake v3, a mutual challenge-response. Upgrade souk-agent-sdk."
          (get "version" hello)
      else if not (is_str (get "publicKey" hello))
      then some "hello needs a publicKey"
      else if not (is_filled (get "nonce" hello))
      then some "hello needs a nonce"
      else if not (is_names (get "agentNames" hello))
      then some "agentNames must be a non-empty list of strings"
      else if not (is_null (get "maxConcurrentRuns" hello))
          && not (is_int (get "maxConcurrentRuns" hello))
      then some "maxConcurrentRuns must be an integer"
      else none

  -- ws_kyok.py
  unfoldable pub llm_hello_error : Fields → Option String
  llm_hello_error hello =
      if not (equals_int (get "version" hello) handshake_version)
      then version_error
          "hello has no version: this souk speaks handshake v3, a mutual challenge-response"
          (get "version" hello)
      else if not (is_str (get "publicKey" hello))
      then some "hello needs a publicKey"
      else if not (is_filled (get "nonce" hello))
      then some "hello needs a nonce"
      else if not (is_names (get "modelNames" hello))
      then some "modelNames must be a non-empty list of strings"
      else none

  abbrev policy : String → Close
  policy reason = record { code = policy_violation; reason = reason }

  abbrev pub proof_signature : String → Json → Close ⊎ (String × String)
  proof_signature nonce (str signature) = inr (nonce, signature)
  proof_signature nonce _ = inl (policy "proof needs a signature")

  abbrev pub read_proof : String → Option Fields → Close ⊎ (String × String)
  read_proof nonce none = inl (policy "expected a proof frame")
  read_proof nonce (some proof) =
      if equals_str (get "type" proof) "proof"
      then proof_signature nonce (get "signature" proof)
      else inl (policy "expected a proof frame")

  module _ (core : Souk) where
    abbrev or_null : Option String → Json
    or_null none = null
    or_null (some s) = str s

    abbrev signed : Option String → String → String → Json
    signed none souk_nonce provider_nonce = null
    signed (some _) souk_nonce provider_nonce =
        str (core.sign (core.souk_connect_payload souk_nonce provider_nonce))

    unfoldable pub challenge_frame : String → String → Fields
    challenge_frame souk_nonce provider_nonce = field "type" (str "challenge") (
        field "soukPublicKey" (or_null core.identity_public_key) (
          field "nonce" (str souk_nonce)
            (field "signature" (signed core.identity_public_key souk_nonce provider_nonce) end)))

    -- The frame that is sent, then the socket's close, or the nonce with its proof.
    unfoldable pub collect_connect_proof :
        Fields → Received → core.State → Fields × (Close ⊎ (String × String)) × core.State
    unfolding challenge_frame
    collect_connect_proof hello received s =
        let (nonce, s') = core.issue_connect_challenge s in
        (
          challenge_frame nonce (text_of (get "nonce" hello)),
          read_proof nonce (receive_frame py.loads received),
          s',
        )
