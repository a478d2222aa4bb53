-- ===== src/Gateway/Samples.antt =====
-- A small souk and a run, at which the tests evaluate the gateway.
use agent_souk_server.Gateway.Wire.{Message}
use agent_souk_server.Gateway.Core.{Python, Souk}
use agent_souk_server.Gateway.Provider.{RunContract}
use agent_souk_server.Base.{
  ℕ, suc, String, ◌<>◌, ◌==◌, inr, true, Option, none, some, [], ◌∷◌, if◌then◌else◌,
}
use agent_souk_server.Base.Json.{pos, Json, bool, int, str, arr, obj, nil, cons, Fields, end, field}

abbrev pub claims : Fields
claims = field "type" (str "hello") (
    field "version" (int (pos 3)) (
      field "publicKey" (str "key")
        (field "agentNames" (arr (cons (str "scribe") nil)) (field "nonce" (str "n1") end))))

abbrev pub delta : Fields
delta = field "delta" (str "hi") end

-- Lists each text's parse by hand.
abbrev pub parses : String → Option Json
parses t =
    if t == "ack-7"
    then some (
        obj (
          field "type" (str "ack")
            (field "runId" (str "run-7") (field "accepted" (bool true) end))))
    else if t == "odd"
    then some (obj (field "type" (arr nil) end))
    else if t == "chunk-r1"
    then some (
        obj (
          field "type" (str "chunk") (field "requestId" (str "r1") (field "data" (obj delta) end))))
    else if t == "done-r1"
    then some (obj (field "type" (str "done") (field "requestId" (str "r1") end)))
    else if t == "proof"
    then some (obj (field "type" (str "proof") (field "signature" (str "sig") end)))
    else if t == "hello"
    then some (obj claims)
    else none

abbrev pub python : Python
python = record { loads = parses; repr = λ v. "?" }

-- A souk that holds one thread, of the provider `key`; its state counts the challenges.
abbrev pub souk : Souk
souk = record {
  State = ℕ;
  link_query_methods = "thread_messages" ∷ [];
  identity_public_key = some "souk-key";
  sign = λ payload. "signed " <> payload;
  souk_connect_payload = λ souk_nonce provider_nonce. souk_nonce <> ":" <> provider_nonce;
  issue_connect_challenge = λ n. ("challenge", suc n);
  attach = λ key names challenge nonce proof n. (if key == "key" then none else some "unknown", n);
  detach = λ key n. n;
  report_event = λ run event key n. (key == "key", n);
  finish_run = λ run key n. (key == "key", n);
  get_agent = λ key name n. key == "key";
  get_thread = λ thread n. if thread == "t1" then some "key" else none;
  get_thread_messages = λ thread n. str "one" ∷ str "two" ∷ str "three" ∷ [];
}

abbrev pub runs : RunContract
runs = record {
  Run = String;
  run_id = λ run. run;
  from_claimed = λ run. inr (field "runId" (str run) (field "agentName" (str "scribe") end));
}

abbrev pub text : String → Message
text t = record { kind = "websocket.receive"; text = some t }
