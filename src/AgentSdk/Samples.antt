-- ===== src/AgentSdk/Samples.antt =====
-- A small provider, at which the tests evaluate the SDK.
use agent_souk_server.Gateway.Wire.{equals_str}
use agent_souk_server.AgentSdk.Handshake.{Crypto}
use agent_souk_server.AgentSdk.Queries.{Link}
use agent_souk_server.AgentSdk.Provider.{Runtime, SoukProvider}
use agent_souk_server.Base.{ℕ, suc, String, ◌<>◌, ◌==◌, inr, true, ◌&&◌, some, []}
use agent_souk_server.Base.Json.{Json, str, Fields, end, field}

-- It knows the signatures of the souk `souk-key`, and signs everything alike.
abbrev pub crypto : Crypto
crypto = record {
  public_key = "key";
  souk_connect_payload = λ souk_nonce provider_nonce. souk_nonce <> ":" <> provider_nonce;
  verify_signature = λ key signature p. equals_str key "souk-key" && signature == ("signed " <> p);
  sign_connect = λ souk_key souk_nonce provider_nonce names. "sig";
}

abbrev pub challenge : Fields
challenge = field "type" (str "challenge") (
    field "soukPublicKey" (str "souk-key")
      (field "nonce" (str "n2") (field "signature" (str "signed n2:n1") end)))

abbrev pub welcome : Fields
welcome = field "type" (str "welcome") end

-- A runtime that takes every run and counts them.
abbrev pub runtime : Runtime
runtime = record {
  State = ℕ;
  Delivered = Fields;
  validate = λ frame. inr frame;
  deliver = λ run n. (true, suc n);
  cancel = λ run n. some n;
}

abbrev pub link : Link
link = record { outbound = []; pending = []; futures = [] }

abbrev pub provider : SoukProvider runtime
provider = record { link = link; runtime = 0 }

abbrev pub run_frame : Fields
run_frame =
    field "type" (str "run") (field "runId" (str "run-7") (field "agentName" (str "scribe") end))

-- Python's `str`, as far as the tests need it.
abbrev pub as_text : Json → String
as_text v = "?"
