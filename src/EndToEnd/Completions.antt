-- ===== src/EndToEnd/Completions.antt =====
-- A completion's way from the bridge, souk_client_sdk/kyok_bridge.py, through souk_server/ws_kyok.py
-- to the caller.
use agent_souk_server.Bridge.{Finish, finished, refused, failed_with, cancelled, stream_frames}
use agent_souk_server.Gateway.Wire.{Message, parse_frame}
use agent_souk_server.Gateway.Core.{Python}
use agent_souk_server.Gateway.Kyok.{
  runtime_error, Item, chunk, done_mark, failure, SocketLlmProvider, put_at, feed,
}
use agent_souk_server.Gateway.Kyok.Streams.{request_at, queue_at, request_at-put, queue_at-put_self}
use agent_souk_server.Gateway.Kyok.Relay.{
  or_reported, failure_of, answered, goes, on_parsed, on_message, serve,
}
use agent_souk_server.Base.{
  ℕ, String, ◌≡◌, refl, sym, ap, ◌∙◌, ◌≢◌, true, some, List, [], ◌∷◌, ◌++◌, map, ==_false,
  append-nil, append_assoc,
}
use agent_souk_server.Base.Json.{str, obj, Fields}
use agent_souk_server.Base.Dict.{lookup}

-- These messages hold these frames.
abbrev pub Holds : Python → List Message → List Fields → Type 0
Holds py [] [] = Unit
Holds py [] (f ∷ fs) = ⊥
Holds py (m ∷ ms) [] = ⊥
Holds py (m ∷ ms) (f ∷ fs) =
    (m.kind ≢ "websocket.disconnect") × (parse_frame py.loads m ≡ some f) × Holds py ms fs

-- What the end of the handler's stream is for the caller; a refusal that is a dict arrives intact.
abbrev pub last_item : Finish → List Item
last_item finished = done_mark ∷ []
last_item (refused payload) = failure (failure_of payload (str "refused by the LLM provider")) ∷ []
last_item (failed_with why) = failure (runtime_error (or_reported (str why))) ∷ []
last_item cancelled = []

module _ (py : Python) (request : String) (i : ℕ) where
  put_item_at : Item → SocketLlmProvider → SocketLlmProvider
  put_item_at item p = record p { streams = put_at i item p.streams }

  relayed :
      (m : Message) (ms : List Message) (frame : Fields) (item : Item) (p : SocketLlmProvider)
      → m.kind ≢ "websocket.disconnect"
      → parse_frame py.loads m ≡ some frame
      → on_parsed py (some frame) p ≡ goes (answered request (feed request item p))
      → lookup request p.answers ≡ some i
      → serve py (m ∷ ms) p ≡ serve py ms (put_item_at item p)
  unfolding on_message feed put_item_at serve
  relayed m ms frame item p live parsed e l =
      let turn : on_message py m p ≡ goes (put_item_at item p) =
        rw (==_false m.kind "websocket.disconnect" live, parsed) (e ∙ rw l refl) in
      rw (serve, turn) refl

  -- The frames that the bridge queues for a request, arriving in that order while the gateway has the
  -- request in its table, end the caller's queue with the handler's chunks in order and then the
  -- handler's end, if it was not cancelled; the loop goes on.
  pub completion_round_trip :
      (chunks : List Fields) (how : Finish) (ms : List Message) (p : SocketLlmProvider)
      → Holds py ms (stream_frames (str request) (map obj chunks) how)
      → lookup request p.answers ≡ some i
      → request_at i p.streams ≡ some request
      → ((serve py ms p).0 ≡ true)
        × (queue_at i (serve py ms p).1.streams
            ≡ queue_at i p.streams ++ (map chunk chunks ++ last_item how))
  unfolding serve put_item_at
  completion_round_trip [] finished (m ∷ []) p (live, parsed, done_) l at =
      rw (relayed m [] _ done_mark p live parsed refl l)
        (refl, queue_at-put_self i done_mark request p.streams at)
  completion_round_trip [] (refused v) (m ∷ []) p (live, parsed, done_) l at =
      rw
        (relayed m [] _ (failure (failure_of v (str "refused by the LLM provider"))) p live parsed
          refl l)
        (refl, queue_at-put_self i _ request p.streams at)
  completion_round_trip [] (failed_with why) (m ∷ []) p (live, parsed, done_) l at =
      rw (relayed m [] _ (failure (runtime_error (or_reported (str why)))) p live parsed refl l)
        (refl, queue_at-put_self i _ request p.streams at)
  completion_round_trip [] finished [] p h l at = elim h [ ]
  completion_round_trip [] finished (m ∷ n ∷ ms) p (live, parsed, h) l at = elim h [ ]
  completion_round_trip [] (refused v) [] p h l at = elim h [ ]
  completion_round_trip [] (refused v) (m ∷ n ∷ ms) p (live, parsed, h) l at = elim h [ ]
  completion_round_trip [] (failed_with why) [] p h l at = elim h [ ]
  completion_round_trip [] (failed_with why) (m ∷ n ∷ ms) p (live, parsed, h) l at = elim h [ ]
  completion_round_trip [] cancelled (m ∷ ms) p h l at = elim h [ ]
  completion_round_trip (c ∷ chunks) how [] p h l at = elim h [ ]
  completion_round_trip [] cancelled [] p h l at = (refl, sym (append-nil (queue_at i p.streams)))
  completion_round_trip (c ∷ chunks) how (m ∷ ms) p (live, parsed, more) l at =
      let q = put_item_at (chunk c) p in
      let (open_yet, queued) =
        completion_round_trip chunks how ms q more l
          (request_at-put i i (chunk c) p.streams ∙ at) in
      rw (relayed m ms _ (chunk c) p live parsed refl l) (
        open_yet,
        queued
            ∙ ap (λ x. x ++ (map chunk chunks ++ last_item how))
                (queue_at-put_self i (chunk c) request p.streams at)
            ∙ append_assoc (queue_at i p.streams) (chunk c ∷ [])
                (map chunk chunks ++ last_item how),
      )
