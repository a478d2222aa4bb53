-- ===== src/Gateway/Kyok/Loss.antt =====
-- `fail_pending` of `SocketLLMProvider`: what the loss of the socket does to the answers in flight.
use agent_souk_server.Gateway.Kyok.{
  Failure, Item, Stream, SocketLlmProvider, connect_llm, put_at, disconnected, fail_all,
  fail_pending, fails, answer_stream,
}
use agent_souk_server.Gateway.Kyok.Streams.{
  request_at, queue_at, request_at-put, queue_at-put_self, IsOpen, answer_stream-disconnected,
}
use agent_souk_server.Gateway.Kyok.Routing.{Reach, connect_llm-IsRouted, Reach-IsRouted}
use agent_souk_server.Base.{
  ℕ, zero, suc, String, ◌==◌, ◌≡◌, refl, sym, ap, ◌∙◌, ◌⊎◌, inl, inr, Bool, Option, some, List, [],
  ◌∷◌, ◌++◌, Bool-cases, some_inj, append-nil, append_assoc,
}
use agent_souk_server.Base.Json.{Fields}
use agent_souk_server.Base.Dict.{Dict, lookup}

copies : ℕ → List Item
copies zero = []
copies (suc n) = disconnected ∷ copies n

put_cases :
    (k i : ℕ) (ss : List Stream)
    → (queue_at i (put_at k disconnected ss) ≡ queue_at i ss)
      ⊎ (queue_at i (put_at k disconnected ss) ≡ queue_at i ss ++ disconnected ∷ [])
put_cases k i [] = inl refl
put_cases zero zero (s ∷ ss) = inr refl
put_cases zero (suc i) (s ∷ ss) = inl refl
put_cases (suc k) zero (s ∷ ss) = inl refl
put_cases (suc k) (suc i) (s ∷ ss) = put_cases k i ss

one_more :
    (q q' later : List Item) → q' ≡ q ++ disconnected ∷ [] → q' ++ later ≡ q ++ disconnected ∷ later
one_more q q' later e = rw e (append_assoc q (disconnected ∷ []) later)

fail_all-copies :
    (d : Dict ℕ) (i : ℕ) (ss : List Stream)
    → (n : ℕ) × (queue_at i (fail_all d ss) ≡ queue_at i ss ++ copies n)
unfolding copies
fail_all-copies [] i ss = (0, sym (append-nil (queue_at i ss)))
fail_all-copies ((r, k) ∷ d) i ss =
    let (n, e) = fail_all-copies d i (put_at k disconnected ss) in
    elim (put_cases k i ss) [
      | inl same ↦ (n, e ∙ ap (λ q. q ++ copies n) same)
      | inr more ↦ (suc n, e ∙ one_more (queue_at i ss) _ (copies n) more)
    ]

-- Every registered queue gets the failure behind what it holds.
fail_all_reaches :
    (d : Dict ℕ) (request : String) (i : ℕ) (ss : List Stream)
    → lookup request d ≡ some i
    → request_at i ss ≡ some request
    → (n : ℕ) × (queue_at i (fail_all d ss) ≡ queue_at i ss ++ disconnected ∷ copies n)
unfolding copies
fail_all_reaches [] request i ss h a = cc
fail_all_reaches ((r, k) ∷ d) request i ss h a = elim (Bool-cases (r == request)) [
  | inl e ↦
      let same : k ≡ i = some_inj (rw e at h) in
      let (n, q) = fail_all-copies d i (put_at k disconnected ss) in
      (
        n,
        q
            ∙ one_more (queue_at i ss) _ (copies n)
                (rw same (queue_at-put_self i disconnected request ss a)),
      )
  | inr e ↦
      let (n, q) =
        fail_all_reaches d request i (put_at k disconnected ss) (rw e at h)
          (request_at-put k i disconnected ss ∙ a) in
      elim (put_cases k i ss) [
        | inl same ↦ (n, q ∙ ap (λ x. x ++ disconnected ∷ copies n) same)
        | inr more ↦ (suc n, q ∙ one_more (queue_at i ss) _ (disconnected ∷ copies n) more)
      ]
]

-- When the socket is lost, no answer in flight is taken as complete or left waiting: its caller gets
-- a failure, whatever chunks came before.
pub fail_pending-fails :
    {Chunk : Type 0} (validate : Fields → Option Chunk) (gap : Bool) (key request : String) (i : ℕ)
    {p : SocketLlmProvider}
    → Reach (connect_llm key) p
    → lookup request p.answers ≡ some i
    → IsOpen (queue_at i p.streams)
    → ((why : Failure) × ((answer_stream validate gap (queue_at i (fail_pending p).streams)).1
          ≡ fails why))
      × ((fail_pending p).answers ≡ [])
unfolding fail_pending
fail_pending-fails validate gap key request i {p} r e o =
    let h = Reach-IsRouted r (connect_llm-IsRouted key) in
    let (n, q) = fail_all_reaches p.answers request i p.streams e (h.named request i e) in
    let (why, f) = answer_stream-disconnected validate gap (queue_at i p.streams) (copies n) o in
    ((why, rw q f), refl)
