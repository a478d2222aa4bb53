-- ===== src/Gateway/Session.antt =====
-- `provider_socket` and `_watch_registration` of souk_server/ws_provider.py. A connection is what it
-- receives: the two handshake frames, each under its deadline, then the messages of the open socket.
-- Queries are spawned, so they are kept as `tasks`; see Gateway/Query.antt for one of them.
pub mod Opening
pub mod Lifetime
use agent_souk_server.Gateway.Wire.{
  Message, Received, Close, policy_violation, close_frame, error_frame, Hello, gone, closed,
  greeted, parse_frame, receive_hello,
}
use agent_souk_server.Gateway.Core.{Python, Souk}
use agent_souk_server.Gateway.Handshake.{names_of, text_of, hello_error, collect_connect_proof}
use agent_souk_server.Gateway.Provider.{SocketProvider, connect, enqueue, ack, fail_pending}
use agent_souk_server.Base.{
  String, ◌<>◌, ◌==◌, ◌⊎◌, inl, inr, Bool, true, false, Option, none, some, List, [], ◌∷◌, ◌++◌,
  if◌then◌else◌,
}
use agent_souk_server.Base.Json.{
  Json, str, arr, obj, Fields, end, field, get_field, get, truthy, hashable,
}

-- `frame["type"]` against `INBOUND_FRAME_TYPES`. A list or a dict has no hash, so that the test
-- `not in` on the frozenset raises `TypeError`.
pub data Kind : Type 0 where
  ack_type event_type finish_type query_type unknown_type unhashable : Kind

abbrev pub kind_of : Json → Kind
kind_of (str t) =
    if t == "ack"
    then ack_type
    else if t == "event"
    then event_type
    else if t == "finish"
    then finish_type
    else if t == "query"
    then query_type
    else unknown_type
kind_of (arr xs) = unhashable
kind_of (obj fs) = unhashable
kind_of _ = unknown_type

-- `bool(parsed.get("accepted", True))`
abbrev pub accepted_of : Option Json → Bool
accepted_of none = true
accepted_of (some v) = truthy v

-- `provider.ack` at a run id as the frame has it: `dict.get` raises on a value with no hash, and
-- finds nothing under one that is no text.
abbrev pub ack_frame : Json → Bool → Json → SocketProvider → Option SocketProvider
ack_frame (str run) ok reason p = some (ack run ok reason p)
ack_frame run ok reason p = if hashable run then some p else none

abbrev pub run_error : Json → String → Fields
run_error run why = field "type" (str "error") (field "runId" run (field "message" (str why) end))

module _ (core : Souk) where
  pub record Session : Type 0 where
    pub provider : SocketProvider
    pub souk : core.State
    pub tasks : List Fields

  -- The loop goes on, was left by a disconnect, or by an exception.
  pub data Flow : Type 0 where
    goes disconnects raises : Session → Flow

  -- What a connection came to: the frames written directly during the handshake, and how it ended.
  pub data Ending : Type 0 where
    left : Ending
    refused : Close → Ending
    served : Flow → Ending

  pub record Outcome : Type 0 where
    pub direct : List Fields
    pub souk : core.State
    pub ending : Ending

  abbrev is_listed : String → List String → core.State → Bool
  is_listed key [] souk = false
  is_listed key (name ∷ names) souk =
      if core.get_agent key name souk then true else is_listed key names souk

  -- `_watch_registration`, over the states of souk that its rechecks see: the close frame that it
  -- queues, if one of them ends it.
  unfoldable pub watch_registration : String → List String → List core.State → Option Fields
  watch_registration key names [] = none
  watch_registration key names (souk ∷ later) =
      let rest = watch_registration key names later in
      if is_listed key names souk
      then rest
      else some (close_frame policy_violation "souk no longer lists these agents; re-register")

module _ {core : Souk} where
  abbrev pub reply : Fields → Session core → Session core
  reply frame s = record s { provider = enqueue frame s.provider }

  abbrev acked : Session core → Option SocketProvider → Flow core
  acked s none = raises s
  acked s (some p) = goes (record s { provider = p })

  -- souk's answer to an event or a finish: if it refused, the provider is told.
  abbrev pub told : Json → String → Bool × core.State → Session core → Flow core
  told run why (true, souk) s = goes (record s { souk = souk })
  told run why (false, souk) s = goes (reply (run_error run why) (record s { souk = souk }))

  abbrev pub and_then : Flow core → (Session core → Flow core) → Flow core
  and_then (goes s) k = k s
  and_then (disconnects s) k = disconnects s
  and_then (raises s) k = raises s

  -- The `finally`.
  unfoldable pub clean_up : Session core → Session core
  clean_up s = record s {
    provider = fail_pending s.provider;
    souk = core.detach s.provider.public_key s.souk;
  }

  abbrev pub finish : Flow core → Flow core
  finish (goes s) = goes s
  finish (disconnects s) = disconnects (clean_up s)
  finish (raises s) = raises (clean_up s)

  -- The session that the loop starts in. The welcome is queued before souk attaches the provider, and
  -- `meanwhile` is what souk does with the provider inside that attach, whose awaits let offers out.
  abbrev pub opened : (SocketProvider → SocketProvider) → String → Json → core.State → Session core
  opened meanwhile key max_runs souk = record {
    provider = meanwhile (enqueue (field "type" (str "welcome") end) (connect key max_runs));
    souk = souk;
    tasks = [];
  }

module _ (py : Python) (core : Souk) where
  abbrev on_kind : Kind → Fields → Session core → Flow core
  on_kind unhashable parsed s = raises s
  on_kind unknown_type parsed s =
      goes (reply (error_frame ("unexpected frame " <> py.repr (get "type" parsed))) s)
  on_kind ack_type parsed s = acked s (
      ack_frame (get "runId" parsed) (accepted_of (get_field "accepted" parsed))
        (get "reason" parsed) s.provider)
  on_kind event_type parsed s =
      told (get "runId" parsed) "event refused"
        (core.report_event (get "runId" parsed) (get "event" parsed) s.provider.public_key s.souk) s
  on_kind finish_type parsed s =
      told (get "runId" parsed) "finish refused"
        (core.finish_run (get "runId" parsed) s.provider.public_key s.souk) s
  on_kind query_type parsed s = goes (record s { tasks = s.tasks ++ parsed ∷ [] })

  abbrev on_parsed : Option Fields → Session core → Flow core
  on_parsed none s = goes (reply (error_frame "unparseable frame") s)
  on_parsed (some parsed) s = on_kind (kind_of (get "type" parsed)) parsed s

  -- One turn of the `while True`.
  unfoldable pub on_message : Message → Session core → Flow core
  on_message m s =
      if m.kind == "websocket.disconnect"
      then disconnects s
      else on_parsed (parse_frame py.loads m) s

  unfoldable pub serve : List Message → Session core → Flow core
  serve [] s = goes s
  serve (m ∷ ms) s = and_then (on_message m s) (serve ms)

module _ (py : Python) (core : Souk) (meanwhile : SocketProvider → SocketProvider) where
  abbrev attached : Fields → List Fields → List Message → Option String × core.State → Outcome core
  attached hello direct ms (some why, souk) = record {
    direct = direct;
    souk = souk;
    ending = refused (record { code = policy_violation; reason = why });
  }
  attached hello direct ms (none, souk) = record {
    direct = direct;
    souk = souk;
    ending = served (
        finish (
          serve py core ms (
            opened meanwhile (text_of (get "publicKey" hello)) (get "maxConcurrentRuns" hello)
              souk)));
  }

  abbrev proved :
      Fields → List Message → Fields × (Close ⊎ (String × String)) × core.State → Outcome core
  proved hello ms (challenge, inl close, souk) = record {
    direct = challenge ∷ [];
    souk = souk;
    ending = refused close;
  }
  proved hello ms (challenge, inr (nonce, proof), souk) = attached hello (challenge ∷ []) ms (
      core.attach (text_of (get "publicKey" hello)) (names_of (get "agentNames" hello)) nonce
        (text_of (get "nonce" hello)) proof souk)

  abbrev checked : Fields → Option String → Received → List Message → core.State → Outcome core
  checked hello (some problem) second ms souk = record {
    direct = [];
    souk = souk;
    ending = refused (record { code = policy_violation; reason = problem });
  }
  checked hello none second ms souk =
      proved hello ms (collect_connect_proof py core hello second souk)

  abbrev received_hello : Hello → Received → List Message → core.State → Outcome core
  received_hello gone second ms souk = record { direct = []; souk = souk; ending = left }
  received_hello (closed close) second ms souk = record {
    direct = [];
    souk = souk;
    ending = refused close;
  }
  received_hello (greeted hello raw) second ms souk =
      checked hello (hello_error py hello) second ms souk

  -- `first` and `second` are what the two handshake waits give.
  unfoldable pub provider_socket : Received → Received → List Message → core.State → Outcome core
  provider_socket first second ms souk =
      received_hello (receive_hello py.loads first) second ms souk
