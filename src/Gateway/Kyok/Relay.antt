-- ===== src/Gateway/Kyok/Relay.antt =====
-- `kyok_socket` of souk_server/ws_kyok.py: the opening, which is that of `/ws/provider` under
-- `modelNames`, and the loop. `attach` and `detach` stand for `attach_llm_provider` and
-- `detach_llm_provider` here.
use agent_souk_server.Gateway.Wire.{
  Message, Received, Close, policy_violation, error_frame, Hello, gone, closed, greeted,
  parse_frame, receive_hello,
}
use agent_souk_server.Gateway.Core.{Python, Souk}
use agent_souk_server.Gateway.Handshake.{names_of, text_of, llm_hello_error, collect_connect_proof}
use agent_souk_server.Gateway.Kyok.{
  Failure, completion_refused, runtime_error, chunk, done_mark, failure, SocketLlmProvider,
  connect_llm, push, feed, fail_pending,
}
use agent_souk_server.Base.{
  String, ◌<>◌, ◌==◌, ◌⊎◌, inl, inr, Bool, true, false, Option, none, some, List, [], ◌∷◌,
  if◌then◌else◌,
}
use agent_souk_server.Base.Json.{Json, str, arr, obj, Fields, end, field, get, as_str, truthy}

-- `ftype` against `INBOUND_FRAME_TYPES`; a list or a dict has no hash.
pub data Kind : Type 0 where
  chunk_type done_type error_type unknown_type unhashable : Kind

abbrev pub kind_of : Json → Kind
kind_of (str t) =
    if t == "chunk"
    then chunk_type
    else if t == "done"
    then done_type
    else if t == "error"
    then error_type
    else unknown_type
kind_of (arr xs) = unhashable
kind_of (obj fs) = unhashable
kind_of _ = unknown_type

abbrev pub request_error : String → String → Fields
request_error request why =
    field "type" (str "error") (field "requestId" (str request) (field "message" (str why) end))

-- `frame.get("message") or "LLM provider reported an error"`
abbrev pub or_reported : Json → Json
or_reported v = if truthy v then v else str "LLM provider reported an error"

-- A `refusal` that is a dict rides along; anything else is prose.
abbrev pub failure_of : Json → Json → Failure
failure_of (obj refusal) text = completion_refused refusal
failure_of _ text = runtime_error (or_reported text)

abbrev pub answered : String → Bool × SocketLlmProvider → SocketLlmProvider
answered request (true, p) = p
answered request (false, p) =
    push (request_error request "no such in-flight completion on this connection") p

abbrev pub on_chunk : String → Json → SocketLlmProvider → SocketLlmProvider
on_chunk request (obj body) p = answered request (feed request (chunk body) p)
on_chunk request _ p = push (request_error request "chunk data must be an object") p

abbrev pub on_request : Kind → String → Fields → SocketLlmProvider → SocketLlmProvider
on_request chunk_type request frame p = on_chunk request (get "data" frame) p
on_request done_type request frame p = answered request (feed request done_mark p)
on_request _ request frame p =
    answered request
      (feed request (failure (failure_of (get "refusal" frame) (get "message" frame))) p)

abbrev pub with_request : Kind → Option String → Fields → SocketLlmProvider → SocketLlmProvider
with_request kind none frame p = push (error_frame "frame needs a requestId") p
with_request kind (some request) frame p = on_request kind request frame p

-- One turn of the loop goes on, is left by a disconnect, or raises.
pub data Turn : Type 0 where
  goes : SocketLlmProvider → Turn
  leaves : Turn
  raises : Turn

module _ (py : Python) where
  abbrev pub on_kind : Kind → Fields → SocketLlmProvider → Turn
  on_kind unhashable frame p = raises
  on_kind unknown_type frame p =
      goes (push (error_frame ("unknown frame type " <> py.repr (get "type" frame))) p)
  on_kind kind frame p = goes (with_request kind (as_str (get "requestId" frame)) frame p)

  abbrev pub on_parsed : Option Fields → SocketLlmProvider → Turn
  on_parsed none p = goes (push (error_frame "unparseable frame") p)
  on_parsed (some frame) p = on_kind (kind_of (get "type" frame)) frame p

  unfoldable pub on_message : Message → SocketLlmProvider → Turn
  on_message m p =
      if m.kind == "websocket.disconnect" then leaves else on_parsed (parse_frame py.loads m) p

  -- The loop over these messages and, once it is left, the `finally`; `true` is still open.
  unfoldable pub serve : List Message → SocketLlmProvider → Bool × SocketLlmProvider
  serve [] p = (true, p)
  serve (m ∷ ms) p = elim (on_message m p) [
    | goes q ↦ serve ms q
    | leaves ↦ (false, fail_pending p)
    | raises ↦ (false, fail_pending p)
  ]

  module _ (core : Souk) where
    pub data Ending : Type 0 where
      left : Ending
      refused : Close → Ending
      served : Bool → SocketLlmProvider → core.State → Ending

    abbrev pub after_serve : String → core.State → Bool × SocketLlmProvider → Ending
    after_serve key souk (true, p) = served true p souk
    after_serve key souk (false, p) = served false p (core.detach key souk)

    abbrev pub attached : Fields → List Message → Option String × core.State → Ending
    attached claims ms (some why, souk) = refused (record { code = policy_violation; reason = why })
    attached claims ms (none, souk) =
        let key = text_of (get "publicKey" claims) in
        after_serve key souk (serve ms (push (field "type" (str "welcome") end) (connect_llm key)))

    abbrev pub proved : Fields → List Message → (Close ⊎ (String × String)) × core.State → Ending
    proved claims ms (inl close, souk) = refused close
    proved claims ms (inr (nonce, proof), souk) = attached claims ms (
        core.attach (text_of (get "publicKey" claims)) (names_of (get "modelNames" claims)) nonce
          (text_of (get "nonce" claims)) proof souk)

    abbrev pub checked : Option String → Fields → Received → List Message → core.State → Ending
    checked (some problem) claims second ms souk =
        refused (record { code = policy_violation; reason = problem })
    checked none claims second ms souk =
        let (challenge, result, souk') = collect_connect_proof py core claims second souk in
        proved claims ms (result, souk')

    abbrev pub greeted_by : Hello → Received → List Message → core.State → Ending
    greeted_by gone second ms souk = left
    greeted_by (closed close) second ms souk = refused close
    greeted_by (greeted claims raw) second ms souk =
        checked (llm_hello_error py claims) claims second ms souk

    unfoldable pub kyok_socket : Received → Received → List Message → core.State → Ending
    kyok_socket first second ms souk = greeted_by (receive_hello py.loads first) second ms souk
