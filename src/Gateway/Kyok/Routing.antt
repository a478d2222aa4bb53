-- ===== src/Gateway/Kyok/Routing.antt =====
-- Which completion an inbound frame's payload reaches, over everything that can happen to an LLM
-- provider's connection.
use agent_souk_server.Gateway.Kyok.{
  Item, Stream, SocketLlmProvider, connect_llm, push, complete, put_at, fed, feed, disconnected,
  fail_all, fail_pending, forget,
}
use agent_souk_server.Gateway.Kyok.Streams.{
  request_at, queue_at, request_at-put, queue_at-put_self, queue_at-put_ne, request_at-append,
}
use agent_souk_server.Base.{
  ℕ, String, eq_iff, ◌≡◌, refl, sym, ◌∙◌, ◌≢◌, ◌⊎◌, inl, inr, true, false, Option, none, some, List,
  [], ◌∷◌, ◌++◌, arith, Option-cases, length,
}
use agent_souk_server.Base.Json.{Fields}
use agent_souk_server.Base.Dict.{Dict, lookup, lookup-insert, lookup-erase}

-- `new_id` returns no id twice.
abbrev pub IsNew : String → SocketLlmProvider → Type 0
IsNew request p = (i : ℕ) → request_at i p.streams ≢ some request

pub data Step (p : SocketLlmProvider) : SocketLlmProvider → Type 0 where
  completes_request :
      (request : String) (envelope : Fields)
      → IsNew request p
      → Step p (complete request envelope p)
  feeds : (request : String) (item : Item) → Step p (feed request item p).1
  forgets : (request : String) → Step p (forget request p)
  queues : (frame : Fields) → Step p (push frame p)
  loses : Step p (fail_pending p)

pub data Reach (p : SocketLlmProvider) : SocketLlmProvider → Type 0 where
  here : Reach p p
  next : {q r : SocketLlmProvider} → Reach p q → Step q r → Reach p r

-- A request has one stream, and the table names it.
pub record IsRouted (p : SocketLlmProvider) : Type 0 where
  pub named :
      (request : String) (i : ℕ)
      → lookup request p.answers ≡ some i
      → request_at i p.streams ≡ some request
  pub one_stream :
      (i j : ℕ) (request : String)
      → request_at i p.streams ≡ some request
      → request_at j p.streams ≡ some request
      → i ≡ j

pub connect_llm-IsRouted : (key : String) → IsRouted (connect_llm key)
unfolding connect_llm
connect_llm-IsRouted key = record { named = λ r i h. cc; one_stream = λ i j r a b. cc }

request_at-fail_all :
    (d : Dict ℕ) (j : ℕ) (ss : List Stream) → request_at j (fail_all d ss) ≡ request_at j ss
request_at-fail_all [] j ss = refl
request_at-fail_all ((r, i) ∷ d) j ss =
    request_at-fail_all d j (put_at i disconnected ss) ∙ request_at-put i j disconnected ss

module _ (p : SocketLlmProvider) (h : IsRouted p) where
  complete-IsRouted :
      (request : String) (envelope : Fields)
      → IsNew request p
      → IsRouted (complete request envelope p)
  unfolding complete
  complete-IsRouted request envelope new =
      let s : Stream = record { request = request; queue = [] } in
      record {
        named = λ r i e. ground (
          arith,
          request_at-append i s p.streams,
          lookup-insert request r (length p.streams) p.answers,
          eq_iff request r,
          h.named r i,
          new i,
          past_end p.streams,
        );
        one_stream = λ i j r a b. ground (
          arith,
          request_at-append i s p.streams,
          request_at-append j s p.streams,
          h.one_stream i j r,
          new i,
          new j,
        );
      }
    where
      past_end : (ss : List Stream) → request_at (length ss) ss ≡ none
      past_end [] = refl
      past_end (t ∷ ss) = past_end ss

  fed-IsRouted : (o : Option ℕ) (item : Item) → IsRouted (fed o item p).1
  fed-IsRouted none item = h
  fed-IsRouted (some k) item = record {
    named = λ r i e. request_at-put k i item p.streams ∙ h.named r i e;
    one_stream = λ i j r a b.
        h.one_stream i j r (sym (request_at-put k i item p.streams) ∙ a)
          (sym (request_at-put k j item p.streams) ∙ b);
  }

  forget-IsRouted : (request : String) → IsRouted (forget request p)
  unfolding forget
  forget-IsRouted request = record {
    named = λ r i e. ground (arith, lookup-erase request r p.answers, h.named r i);
    one_stream = h.one_stream;
  }

  fail_pending-IsRouted : IsRouted (fail_pending p)
  unfolding fail_pending
  fail_pending-IsRouted = record {
    named = λ r i e. cc;
    one_stream = λ i j r a b.
        h.one_stream i j r (sym (request_at-fail_all p.answers i p.streams) ∙ a)
          (sym (request_at-fail_all p.answers j p.streams) ∙ b);
  }

Step-IsRouted : {p q : SocketLlmProvider} → Step p q → IsRouted p → IsRouted q
unfolding feed
Step-IsRouted {p} (completes_request request envelope new) h =
    complete-IsRouted p h request envelope new
Step-IsRouted {p} (feeds request item) h = fed-IsRouted p h (lookup request p.answers) item
Step-IsRouted {p} (forgets request) h = forget-IsRouted p h request
Step-IsRouted (queues frame) h = record { named = h.named; one_stream = h.one_stream }
Step-IsRouted {p} loses h = fail_pending-IsRouted p h

pub Reach-IsRouted : {p q : SocketLlmProvider} → Reach p q → IsRouted p → IsRouted q
Reach-IsRouted here h = h
Reach-IsRouted (next r s) h = Step-IsRouted s (Reach-IsRouted r h)

-- What one frame does on a connection in any state that it can reach. It is taken exactly when its
-- request is in this connection's table; then its item ends the queue of the one stream of that
-- request, and no other queue changes. Else nothing changes.
pub feed-routes :
    (key request : String) (item : Item) {p : SocketLlmProvider}
    → Reach (connect_llm key) p
    → ((lookup request p.answers ≡ none) × (feed request item p ≡ (false, p)))
      ⊎ ((i : ℕ) × (request_at i p.streams ≡ some request)
          × ((feed request item p).0 ≡ true)
          × (queue_at i (feed request item p).1.streams ≡ queue_at i p.streams ++ item ∷ [])
          × ((j : ℕ) → i ≢ j → queue_at j (feed request item p).1.streams ≡ queue_at j p.streams))
unfolding feed
feed-routes key request item {p} r =
    let h = Reach-IsRouted r (connect_llm-IsRouted key) in
    elim (Option-cases (lookup request p.answers)) [
      | inl e ↦ inl (e, rw (e, fed))
      | inr (i, e) ↦
          let named = h.named request i e in
          inr (
            i,
            named,
            rw (e, fed),
            rw (e, fed) (queue_at-put_self i item request p.streams named),
            λ j ne. rw (e, fed) (queue_at-put_ne i j item p.streams ne),
          )
    ]
