-- ===== src/Gateway/Provider/Answers.antt =====
-- What the loss of the socket, and one ack, do to the offers that wait.
use agent_souk_server.Gateway.Provider.{
  accepted, refusal, pending, done, SocketProvider, RunContract, connect, declined, answer_of,
  settle, ack, fail_pending,
}
use agent_souk_server.Gateway.Provider.Waiters.{run_at, future_at, future_at-resolve}
use agent_souk_server.Gateway.Provider.Steps.{
  Reach, IsConsistent, connect-IsConsistent, fail_pending-not-pending, Reach-IsConsistent,
}
use agent_souk_server.Base.{
  ℕ, String, ◌==◌, eq_iff, ◌≡◌, refl, ap, ◌≢◌, ◌↔◌, inl, inr, Bool, true, false, Option, none, some,
  [], arith, Bool-cases, ==_false,
}
use agent_souk_server.Base.Json.{Json, str, as_str, as_str-some}
use agent_souk_server.Base.Dict.{lookup}

module _ (c : RunContract) where
  -- After the socket is lost, in any state that the connection can reach, no offer waits on a
  -- future, and none can be acked any more.
  pub disconnect_settles :
      (key : String) (max_runs : Json) {p : SocketProvider}
      → Reach c (connect key max_runs) p
      → ((i : ℕ) → future_at i (fail_pending p).waiters ≢ some pending)
        × ((fail_pending p).acks ≡ [])
  unfolding fail_pending
  disconnect_settles key max_runs {p} r = (
    λ i e. ground (
      arith,
      fail_pending-not-pending c p (Reach-IsConsistent c r (connect-IsConsistent key max_runs)) i,
    ),
    refl,
  )

-- The ack for an offer that waits sets that offer's answer and no other, and queues nothing.
pub ack-settles :
    (p : SocketProvider) (i : ℕ) (run : String) (ok : Bool) (reason : Json)
    → IsConsistent p
    → run_at i p.waiters ≡ some run
    → future_at i p.waiters ≡ some pending
    → (future_at i (ack run ok reason p).waiters ≡ some (done (answer_of ok reason)))
      × ((j : ℕ) → i ≢ j → future_at j (ack run ok reason p).waiters ≡ future_at j p.waiters)
      × ((ack run ok reason p).outbound ≡ p.outbound)
unfolding ack
ack-settles p i run ok reason h at f =
    let e = h.registered i run at f in
    rw (e, settle)
      (
        ground (arith, future_at-resolve i i (answer_of ok reason) p.waiters),
        λ j ne. ground (arith, future_at-resolve i j (answer_of ok reason) p.waiters),
        refl,
      )

-- An ack for a run that no offer of this connection waits on changes nothing.
pub ack-stray :
    (p : SocketProvider) (run : String) (ok : Bool) (reason : Json)
    → lookup run p.acks ≡ none
    → ack run ok reason p ≡ p
unfolding ack
ack-stray p run ok reason e = rw (e, settle)

declined-refusal :
    (o : Option String) (text : String) → declined o ≡ refusal text → (o ≡ some text) × (text ≢ "")
declined-refusal none text h = cc
declined-refusal (some r) text h = elim (Bool-cases (r == "")) [
  | inl e ↦ absurd (empty (rw e at h))
  | inr e ↦ (ap some (same (rw e at h)), λ q. ground (arith, eq_iff r "", same (rw e at h)))
]
  where
    empty : accepted false ≡ refusal text → ⊥
    empty q = cc

    same : refusal r ≡ refusal text → r ≡ text
    same q = cc

-- The answer is a refusal exactly for a decline whose reason is a text that is not empty.
pub answer_of-refusal :
    (ok : Bool) (reason : Json) (text : String)
    → (answer_of ok reason ≡ refusal text) ↔ ((ok ≡ false) × (reason ≡ str text) × (text ≢ ""))
answer_of-refusal true reason text = (λ e. cc, λ (a, b, d). cc)
answer_of-refusal false reason text = (
  λ e.
      let (got, filled) = declined-refusal (as_str reason) text e in
      (refl, as_str-some reason text got, filled),
  λ (same, e, filled). rw e (rw (==_false text "" filled)),
)
