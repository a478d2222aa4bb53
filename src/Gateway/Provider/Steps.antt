-- ===== src/Gateway/Provider/Steps.antt =====
-- What can happen to a `SocketProvider`, in any order: souk offers and cancels, acks arrive, frames are
-- queued, each waiting `deliver` comes back, the socket is lost. souk offers no run while an earlier `deliver` of
-- the same run is still out.
use agent_souk_server.Gateway.Provider.{
  Answer, pending, done, Waiter, SocketProvider, RunContract, connect, enqueue, deliver, Wake,
  answered, deadline, cancelled, returned, deliver_rest, answer_of, resolve, ack, cancel,
  fail_pending, start_offer, settle,
}
use agent_souk_server.Gateway.Provider.Waiters.{
  run_at, future_at, run_at-resolve, run_at-close, future_at-resolve, future_at-close,
  run_at-decline_all, run_at-append, future_at-append, run_at_of_future, is_pending, is_live,
  decline_all_keeps, decline_all-not-pending, is_live-decline_all,
}
use agent_souk_server.Base.{
  ℕ, String, eq_iff, ◌≡◌, ◌⊎◌, inl, inr, Bool, true, false, some, arith, Bool-cases, Option-cases,
  length,
}
use agent_souk_server.Base.Json.{Json, Fields}
use agent_souk_server.Base.Dict.{lookup, lookup-insert, lookup-erase}

-- No `deliver` of this run is still out.
abbrev pub IsFresh : String → SocketProvider → Type 0
IsFresh run p = (i : ℕ) → run_at i p.waiters ≡ some run → is_live (future_at i p.waiters) ≡ false

module _ (c : RunContract) where
  pub data Step (p : SocketProvider) : SocketProvider → Type 0 where
    offers : (run : c.Run) → IsFresh (c.run_id run) p → Step p (deliver c run p).1
    acks : (run : String) (ok : Bool) (reason : Json) → Step p (ack run ok reason p)
    cancels : (run : String) → Step p (cancel run p)
    queues : (frame : Fields) → Step p (enqueue frame p)
    wakes :
        (i : ℕ) (run : String) (a : Answer)
        → run_at i p.waiters ≡ some run
        → future_at i p.waiters ≡ some (done a)
        → Step p (deliver_rest run i (answered a) p).1
    expires :
        (i : ℕ) (run : String)
        → run_at i p.waiters ≡ some run
        → future_at i p.waiters ≡ some pending
        → Step p (deliver_rest run i deadline p).1
    aborts :
        (i : ℕ) (run : String)
        → run_at i p.waiters ≡ some run
        → is_live (future_at i p.waiters) ≡ true
        → Step p (deliver_rest run i cancelled p).1
    fails : Step p (fail_pending p)

  pub data Reach (p : SocketProvider) : SocketProvider → Type 0 where
    here : Reach p p
    next : {q r : SocketProvider} → Reach p q → Step q r → Reach p r

-- A run has one `deliver` out at most, and one that still waits is the one that an ack finds.
pub record IsConsistent (p : SocketProvider) : Type 0 where
  pub one_live :
      (i j : ℕ) (run : String)
      → run_at i p.waiters ≡ some run
      → run_at j p.waiters ≡ some run
      → is_live (future_at i p.waiters) ≡ true
      → is_live (future_at j p.waiters) ≡ true
      → i ≡ j
  pub registered :
      (i : ℕ) (run : String)
      → run_at i p.waiters ≡ some run
      → future_at i p.waiters ≡ some pending
      → lookup run p.acks ≡ some i

pub connect-IsConsistent : (key : String) (max_runs : Json) → IsConsistent (connect key max_runs)
unfolding connect
connect-IsConsistent key max_runs = record {
  one_live = λ i j run a b. cc;
  registered = λ i run a. cc;
}

module _ (c : RunContract) (p : SocketProvider) (h : IsConsistent p) where
  start_offer-IsConsistent :
      (run : String) (o : String ⊎ Fields) → IsFresh run p → IsConsistent (start_offer c run o p).1
  start_offer-IsConsistent run (inl problem) fresh = h
  start_offer-IsConsistent run (inr delivered) fresh =
      let w : Waiter = record { run = run; future = pending } in
      record {
        one_live = λ i j r a b x y. ground (
          arith,
          run_at-append i w p.waiters,
          run_at-append j w p.waiters,
          future_at-append i w p.waiters,
          future_at-append j w p.waiters,
          h.one_live i j r,
          fresh i,
          fresh j,
        );
        registered = λ i r a b. ground (
          arith,
          run_at-append i w p.waiters,
          future_at-append i w p.waiters,
          lookup-insert run r (length p.waiters) p.acks,
          eq_iff run r,
          h.registered i r,
          fresh i,
        );
      }

  resolve-IsConsistent :
      (k : ℕ) (a : Answer) → IsConsistent (record p { waiters = resolve k a p.waiters })
  resolve-IsConsistent k a = record {
    one_live = λ i j r x y u v. ground (
      arith,
      run_at-resolve k i a p.waiters,
      run_at-resolve k j a p.waiters,
      future_at-resolve k i a p.waiters,
      future_at-resolve k j a p.waiters,
      h.one_live i j r,
    );
    registered = λ i r x y. ground (
      arith,
      run_at-resolve k i a p.waiters,
      future_at-resolve k i a p.waiters,
      h.registered i r,
    );
  }

  deliver_rest-IsConsistent :
      (k : ℕ) (run : String) (wake : Wake)
      → run_at k p.waiters ≡ some run
      → is_live (future_at k p.waiters) ≡ true
      → IsConsistent (deliver_rest run k wake p).1
  unfolding deliver_rest
  deliver_rest-IsConsistent k run wake at live = record {
    one_live = λ i j r x y u v. ground (
      arith,
      run_at-close k i (returned wake) p.waiters,
      run_at-close k j (returned wake) p.waiters,
      future_at-close k i (returned wake) p.waiters,
      future_at-close k j (returned wake) p.waiters,
      h.one_live i j r,
    );
    registered = λ i r x y. ground (
      arith,
      run_at-close k i (returned wake) p.waiters,
      future_at-close k i (returned wake) p.waiters,
      lookup-erase run r p.acks,
      eq_iff run r,
      h.registered i r,
      h.one_live i k r,
    );
  }

  -- Once the socket is lost, no future of this provider waits for an answer.
  pub fail_pending-not-pending : (i : ℕ) → is_pending (future_at i (fail_pending p).waiters) ≡ false
  unfolding fail_pending
  fail_pending-not-pending i = elim (Bool-cases (is_pending (future_at i p.waiters))) [
    | inl waits ↦
        let f : future_at i p.waiters ≡ some pending = ground arith in
        let (run, at) = run_at_of_future i pending p.waiters f in
        decline_all-not-pending p.acks run i p.waiters (h.registered i run at f)
    | inr settled ↦ decline_all_keeps p.acks i p.waiters settled
  ]

  fail_pending-IsConsistent : IsConsistent (fail_pending p)
  unfolding fail_pending
  fail_pending-IsConsistent = record {
    one_live = λ i j r x y u v. ground (
      arith,
      run_at-decline_all p.acks i p.waiters,
      run_at-decline_all p.acks j p.waiters,
      is_live-decline_all p.acks i p.waiters,
      is_live-decline_all p.acks j p.waiters,
      h.one_live i j r,
    );
    registered = λ i r x y. ground (arith, fail_pending-not-pending i);
  }

  ack-IsConsistent : (run : String) (ok : Bool) (reason : Json) → IsConsistent (ack run ok reason p)
  unfolding ack
  ack-IsConsistent run ok reason = elim (Option-cases (lookup run p.acks)) [
    | inl e ↦ rw (e, settle) h
    | inr (i, e) ↦ rw (e, settle) (resolve-IsConsistent i (answer_of ok reason))
  ]

module _ (c : RunContract) where
  Step-IsConsistent : {p q : SocketProvider} → Step c p q → IsConsistent p → IsConsistent q
  unfolding deliver cancel
  Step-IsConsistent {p} (offers run fresh) h =
      start_offer-IsConsistent c p h (c.run_id run) (c.from_claimed run) fresh
  Step-IsConsistent {p} (acks run ok reason) h = ack-IsConsistent c p h run ok reason
  Step-IsConsistent (cancels run) h = record { one_live = h.one_live; registered = h.registered }
  Step-IsConsistent (queues frame) h = record { one_live = h.one_live; registered = h.registered }
  Step-IsConsistent {p} (wakes i run a at f) h =
      deliver_rest-IsConsistent c p h i run (answered a) at (ground arith)
  Step-IsConsistent {p} (expires i run at f) h =
      deliver_rest-IsConsistent c p h i run deadline at (ground arith)
  Step-IsConsistent {p} (aborts i run at f) h = deliver_rest-IsConsistent c p h i run cancelled at f
  Step-IsConsistent {p} fails h = fail_pending-IsConsistent c p h

  -- Whatever has happened on the connection.
  pub Reach-IsConsistent : {p q : SocketProvider} → Reach c p q → IsConsistent p → IsConsistent q
  Reach-IsConsistent here h = h
  Reach-IsConsistent (next r s) h = Step-IsConsistent s (Reach-IsConsistent r h)
