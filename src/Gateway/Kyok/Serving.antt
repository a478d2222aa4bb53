-- ===== src/Gateway/Kyok/Serving.antt =====
-- The loop of `kyok_socket` over the life of a connection, while core asks for completions on it.
use agent_souk_server.Gateway.Wire.{Message, error_frame, parse_frame}
use agent_souk_server.Gateway.Core.{Python}
use agent_souk_server.Gateway.Kyok.{
  Item, chunk, done_mark, failure, SocketLlmProvider, connect_llm, feed,
}
use agent_souk_server.Gateway.Kyok.Streams.{request_at, queue_at}
use agent_souk_server.Gateway.Kyok.Routing.{feeds, queues, Reach, here, next, feed-routes}
use agent_souk_server.Gateway.Kyok.Relay.{
  Kind, chunk_type, done_type, unknown_type, unhashable, kind_of, request_error, failure_of,
  answered, on_chunk, on_request, with_request, Turn, goes, leaves, raises, on_kind, on_parsed,
  on_message,
}
use agent_souk_server.Base.{
  ℕ, String, ◌<>◌, ◌==◌, ◌≡◌, refl, ap, ◌∙◌, ◌⊎◌, inl, inr, Bool, true, false, Option, none, some,
  [], ◌∷◌, ◌++◌, arith, eqb, Bool-cases, subst,
}
use agent_souk_server.Base.Json.{Json, str, obj, Fields, get, as_str, as_str-some}

-- What a turn may have done to a queue: nothing, or one item of a frame that names its request.
abbrev pub Fed : Option Fields → SocketLlmProvider → SocketLlmProvider → ℕ → Type 0
Fed o p q j =
    (queue_at j q.streams ≡ queue_at j p.streams)
    ⊎ ((frame : Fields) × (request : String) × (item : Item) × (o ≡ some frame)
        × (get "requestId" frame ≡ str request)
        × (request_at j p.streams ≡ some request)
        × (queue_at j q.streams ≡ queue_at j p.streams ++ item ∷ []))

abbrev pub TurnFed : Option Fields → SocketLlmProvider → Turn → Type 0
TurnFed o p (goes q) = (j : ℕ) → Fed o p q j
TurnFed o p leaves = Unit
TurnFed o p raises = Unit

abbrev TurnReach : SocketLlmProvider → Turn → Type 0
TurnReach p (goes q) = Reach p q
TurnReach p leaves = Unit
TurnReach p raises = Unit

answered-streams :
    (request : String) (r : Bool × SocketLlmProvider) → (answered request r).streams ≡ r.1.streams
answered-streams request (true, p) = refl
answered-streams request (false, p) = refl

answered-Reach :
    (request : String) (p : SocketLlmProvider) (r : Bool × SocketLlmProvider)
    → Reach p r.1
    → Reach p (answered request r)
answered-Reach request p (true, q) h = h
answered-Reach request p (false, q) h =
    next h (queues (request_error request "no such in-flight completion on this connection"))

feed-Reach :
    (request : String) (item : Item) (p : SocketLlmProvider)
    → Reach p (answered request (feed request item p))
feed-Reach request item p =
    answered-Reach request p (feed request item p) (next here (feeds request item))

module _ (key : String) (frame : Fields) (request : String) (p : SocketLlmProvider)
    (h : Reach (connect_llm key) p) (named : get "requestId" frame ≡ str request) where
  feed-Fed : (item : Item) (j : ℕ) → Fed (some frame) p (answered request (feed request item p)) j
  feed-Fed item j = elim (feed-routes key request item h) [
    | inl (absent, e) ↦
        inl (ap (queue_at j) (answered-streams request (feed request item p)) ∙ rw e)
    | inr (i, at, taken, grown, others) ↦ elim (Bool-cases (eqb i j)) [
      | inl same ↦
          let e : i ≡ j = ground arith in
          inr (
            frame,
            request,
            item,
            refl,
            named,
            subst (λ n. request_at n p.streams ≡ some request) e at,
            subst
                (λ n.
                  queue_at n (answered request (feed request item p)).streams
                  ≡ queue_at n p.streams ++ item ∷ [])
                e (ap (queue_at i) (answered-streams request (feed request item p)) ∙ grown),
          )
      | inr differ ↦ inl (
          ap (queue_at j) (answered-streams request (feed request item p))
          ∙ others j (λ e. ground arith))
    ]
  ]

  chunk_Fed : (v : Json) (j : ℕ) → Fed (some frame) p (on_chunk request v p) j
  chunk_Fed (obj body) j = feed-Fed (chunk body) j
  chunk_Fed v j = inl refl

  request_Fed : (k : Kind) (j : ℕ) → Fed (some frame) p (on_request k request frame p) j
  request_Fed chunk_type j = chunk_Fed (get "data" frame) j
  request_Fed done_type j = feed-Fed done_mark j
  request_Fed k j = feed-Fed (failure (failure_of (get "refusal" frame) (get "message" frame))) j

chunk_Reach : (request : String) (v : Json) (p : SocketLlmProvider) → Reach p (on_chunk request v p)
chunk_Reach request (obj body) p = feed-Reach request (chunk body) p
chunk_Reach request v p = next here (queues (request_error request "chunk data must be an object"))

request_Reach :
    (k : Kind) (o : Option String) (frame : Fields) (p : SocketLlmProvider)
    → Reach p (with_request k o frame p)
request_Reach k none frame p = next here (queues (error_frame "frame needs a requestId"))
request_Reach chunk_type (some request) frame p = chunk_Reach request (get "data" frame) p
request_Reach done_type (some request) frame p = feed-Reach request done_mark p
request_Reach k (some request) frame p = feed-Reach request _ p

module _ (py : Python) (key : String) (p : SocketLlmProvider) (h : Reach (connect_llm key) p) where
  with_request-Fed :
      (k : Kind) (frame : Fields) (o : Option String)
      → as_str (get "requestId" frame) ≡ o
      → (j : ℕ) → Fed (some frame) p (with_request k o frame p) j
  with_request-Fed k frame none e j = inl refl
  with_request-Fed k frame (some request) e j =
      request_Fed key frame request p h (as_str-some (get "requestId" frame) request e) k j

  on_kind_Fed : (k : Kind) (frame : Fields) → TurnFed (some frame) p (on_kind py k frame p)
  on_kind_Fed unhashable frame = tt
  on_kind_Fed unknown_type frame = λ j. inl refl
  on_kind_Fed k frame = with_request-Fed k frame (as_str (get "requestId" frame)) refl

  on_parsed_Fed : (o : Option Fields) → TurnFed o p (on_parsed py o p)
  on_parsed_Fed none = λ j. inl refl
  on_parsed_Fed (some frame) = on_kind_Fed (kind_of (get "type" frame)) frame

  -- In any state that the connection can reach, a message changes a queue only by one item, and only
  -- where it is a frame that names that queue's own request: an answer reaches no completion that was
  -- not delivered on this connection, and none but the one that it names.
  pub on_message-isolated :
      (m : Message) (q : SocketLlmProvider)
      → on_message py m p ≡ goes q
      → (j : ℕ) → Fed (parse_frame py.loads m) p q j
  unfolding on_message
  on_message-isolated m q e = elim (Bool-cases (m.kind == "websocket.disconnect")) [
    | inl off ↦ absurd (leaves-ne-goes (rw off at e))
    | inr on ↦
        subst (TurnFed (parse_frame py.loads m) p) (rw on at e)
          (on_parsed_Fed (parse_frame py.loads m))
  ]
    where
      leaves-ne-goes : leaves ≡ goes q → ⊥
      leaves-ne-goes x = cc

module _ (py : Python) where
  on_kind_Reach :
      (k : Kind) (frame : Fields) (p : SocketLlmProvider) → TurnReach p (on_kind py k frame p)
  on_kind_Reach unhashable frame p = tt
  on_kind_Reach unknown_type frame p =
      next here (queues (error_frame ("unknown frame type " <> py.repr (get "type" frame))))
  on_kind_Reach k frame p = request_Reach k (as_str (get "requestId" frame)) frame p

  on_parsed_Reach : (o : Option Fields) (p : SocketLlmProvider) → TurnReach p (on_parsed py o p)
  on_parsed_Reach none p = next here (queues (error_frame "unparseable frame"))
  on_parsed_Reach (some frame) p = on_kind_Reach (kind_of (get "type" frame)) frame p

  -- Each turn of the loop moves the connection by the steps of Gateway/Kyok/Routing.antt.
  pub on_message-Reach :
      (m : Message) (p q : SocketLlmProvider) → on_message py m p ≡ goes q → Reach p q
  unfolding on_message
  on_message-Reach m p q e = elim (Bool-cases (m.kind == "websocket.disconnect")) [
    | inl off ↦ absurd (leaves-ne-goes (rw off at e))
    | inr on ↦ subst (TurnReach p) (rw on at e) (on_parsed_Reach (parse_frame py.loads m) p)
  ]
    where
      leaves-ne-goes : leaves ≡ goes q → ⊥
      leaves-ne-goes x = cc
