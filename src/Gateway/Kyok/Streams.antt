-- ===== src/Gateway/Kyok/Streams.antt =====
-- The answer queues under `put_nowait`, and what the consumer of one makes of it.
use agent_souk_server.Gateway.Kyok.{
  Failure, runtime_error, invalid_chunk, Item, chunk, done_mark, failure, Stream, put_at,
  disconnected, completes, fails, answer_stream,
}
use agent_souk_server.Base.{
  ℕ, zero, suc, String, ◌≡◌, refl, ap, ◌≢◌, inl, inr, Bool, true, false, Option, none, some, List,
  [], ◌∷◌, ◌++◌, arith, eqb, if◌then◌else◌, Option-cases, length,
}
use agent_souk_server.Base.Json.{str, Fields}

abbrev pub request_at : ℕ → List Stream → Option String
request_at i [] = none
request_at zero (s ∷ ss) = some s.request
request_at (suc i) (s ∷ ss) = request_at i ss

abbrev pub queue_at : ℕ → List Stream → List Item
queue_at i [] = []
queue_at zero (s ∷ ss) = s.queue
queue_at (suc i) (s ∷ ss) = queue_at i ss

pub request_at-put :
    (i j : ℕ) (item : Item) (ss : List Stream) → request_at j (put_at i item ss) ≡ request_at j ss
request_at-put i j item [] = refl
request_at-put zero zero item (s ∷ ss) = refl
request_at-put zero (suc j) item (s ∷ ss) = refl
request_at-put (suc i) zero item (s ∷ ss) = refl
request_at-put (suc i) (suc j) item (s ∷ ss) = request_at-put i j item ss

pub queue_at-put_self :
    (i : ℕ) (item : Item) (request : String) (ss : List Stream)
    → request_at i ss ≡ some request
    → queue_at i (put_at i item ss) ≡ queue_at i ss ++ item ∷ []
queue_at-put_self i item request [] h = cc
queue_at-put_self zero item request (s ∷ ss) h = refl
queue_at-put_self (suc i) item request (s ∷ ss) h = queue_at-put_self i item request ss h

pub queue_at-put_ne :
    (i j : ℕ) (item : Item) (ss : List Stream)
    → i ≢ j
    → queue_at j (put_at i item ss) ≡ queue_at j ss
queue_at-put_ne i j item [] h = refl
queue_at-put_ne zero zero item (s ∷ ss) h = absurd (h refl)
queue_at-put_ne zero (suc j) item (s ∷ ss) h = refl
queue_at-put_ne (suc i) zero item (s ∷ ss) h = refl
queue_at-put_ne (suc i) (suc j) item (s ∷ ss) h = queue_at-put_ne i j item ss (λ e. h (ap suc e))

pub request_at-append :
    (j : ℕ) (s : Stream) (ss : List Stream)
    → request_at j (ss ++ s ∷ []) ≡ (if eqb j (length ss) then some s.request else request_at j ss)
request_at-append zero s [] = refl
request_at-append (suc j) s [] = ground arith
request_at-append zero s (v ∷ ss) = ground arith
request_at-append (suc j) s (v ∷ ss) = ground (arith, request_at-append j s ss)

-- No end of the answer stands in the queue yet.
abbrev pub IsOpen : List Item → Type 0
IsOpen [] = Unit
IsOpen (chunk body ∷ items) = IsOpen items
IsOpen (done_mark ∷ items) = ⊥
IsOpen (failure why ∷ items) = ⊥

module _ {Chunk : Type 0} (validate : Fields → Option Chunk) where
  -- Every chunk of the queue passes `model_validate`, and these are the results.
  abbrev pub Validates : List Item → List Chunk → Type 0
  Validates [] [] = Unit
  Validates [] (c ∷ cs) = ⊥
  Validates (chunk body ∷ items) [] = ⊥
  Validates (chunk body ∷ items) (c ∷ cs) = (validate body ≡ some c) × Validates items cs
  Validates (done_mark ∷ items) cs = ⊥
  Validates (failure why ∷ items) cs = ⊥

  -- Valid chunks and then the end: the caller gets those chunks in order and that end, and nothing
  -- that comes later.
  pub answer_stream-done :
      (gap : Bool) (items later : List Item) (cs : List Chunk)
      → Validates items cs
      → answer_stream validate gap (items ++ done_mark ∷ later) ≡ (cs, completes)
  unfolding answer_stream
  answer_stream-done true [] later [] h = refl
  answer_stream-done false [] later [] h = refl
  answer_stream-done gap [] later (c ∷ cs) h = absurd h
  answer_stream-done gap (chunk body ∷ items) later [] h = absurd h
  answer_stream-done gap (done_mark ∷ items) later cs h = absurd h
  answer_stream-done gap (failure why ∷ items) later cs h = absurd h
  answer_stream-done true (chunk body ∷ items) later (c ∷ cs) h =
      rw (h.0, answer_stream, answer_stream-done true items later cs h.1)
  answer_stream-done false (chunk body ∷ items) later (c ∷ cs) h =
      rw (h.0, answer_stream, answer_stream-done false items later cs h.1)

  -- An answer without an end, over which the socket is lost, fails: whatever its chunks, it is never
  -- taken as complete and never left waiting.
  pub answer_stream-disconnected :
      (gap : Bool) (items later : List Item)
      → IsOpen items
      → (why : Failure) × ((answer_stream validate gap (items ++ disconnected ∷ later)).1
          ≡ fails why)
  unfolding answer_stream
  answer_stream-disconnected true [] later h =
      (runtime_error (str "LLM provider disconnected mid-response"), refl)
  answer_stream-disconnected false [] later h =
      (runtime_error (str "LLM provider disconnected mid-response"), refl)
  answer_stream-disconnected gap (done_mark ∷ items) later h = absurd h
  answer_stream-disconnected gap (failure why ∷ items) later h = absurd h
  answer_stream-disconnected gap (chunk body ∷ items) later h =
      let (why, e) = answer_stream-disconnected gap items later h in
      elim (Option-cases (validate body)) [
        | inl bad ↦ (invalid_chunk, rw (bad, answer_stream))
        | inr (c, good) ↦ (why, rw (good, answer_stream) e)
      ]
