-- ===== src/Gateway/Provider/Waiters.antt =====
-- The list of futures under `set_result` and under the end of a `deliver`.
use agent_souk_server.Gateway.Provider.{
  Answer, accepted, Future, pending, done, ended, Waiter, close_waiter, set_result, resolve,
  decline_all,
}
use agent_souk_server.Base.{
  ℕ, zero, suc, ◌≤◌, String, ◌==◌, ◌≡◌, refl, ◌∙◌, inl, inr, Bool, true, false, Option, none, some,
  List, [], ◌∷◌, ◌++◌, arith, eqb, if◌then◌else◌, Bool-cases, length,
}
use agent_souk_server.Base.Dict.{Dict, lookup}

abbrev pub run_at : ℕ → List Waiter → Option String
run_at i [] = none
run_at zero (w ∷ ws) = some w.run
run_at (suc i) (w ∷ ws) = run_at i ws

abbrev pub future_at : ℕ → List Waiter → Option Future
future_at i [] = none
future_at zero (w ∷ ws) = some w.future
future_at (suc i) (w ∷ ws) = future_at i ws

abbrev pub on_future : (Future → Future) → Option Future → Option Future
on_future f none = none
on_future f (some x) = some (f x)

abbrev pub end_with : Option Answer → Future → Future
end_with r _ = ended r

pub run_at-resolve :
    (i j : ℕ) (a : Answer) (ws : List Waiter) → run_at j (resolve i a ws) ≡ run_at j ws
run_at-resolve i j a [] = refl
run_at-resolve zero zero a (w ∷ ws) = refl
run_at-resolve zero (suc j) a (w ∷ ws) = refl
run_at-resolve (suc i) zero a (w ∷ ws) = refl
run_at-resolve (suc i) (suc j) a (w ∷ ws) = run_at-resolve i j a ws

pub run_at-close :
    (i j : ℕ) (r : Option Answer) (ws : List Waiter) → run_at j (close_waiter i r ws) ≡ run_at j ws
run_at-close i j r [] = refl
run_at-close zero zero r (w ∷ ws) = refl
run_at-close zero (suc j) r (w ∷ ws) = refl
run_at-close (suc i) zero r (w ∷ ws) = refl
run_at-close (suc i) (suc j) r (w ∷ ws) = run_at-close i j r ws

pub future_at-resolve :
    (i j : ℕ) (a : Answer) (ws : List Waiter)
    → future_at j (resolve i a ws)
      ≡ (if eqb i j then on_future (set_result a) (future_at j ws) else future_at j ws)
future_at-resolve i j a [] = ground arith
future_at-resolve zero zero a (w ∷ ws) = refl
future_at-resolve zero (suc j) a (w ∷ ws) = ground arith
future_at-resolve (suc i) zero a (w ∷ ws) = ground arith
future_at-resolve (suc i) (suc j) a (w ∷ ws) = ground (arith, future_at-resolve i j a ws)

pub future_at-close :
    (i j : ℕ) (r : Option Answer) (ws : List Waiter)
    → future_at j (close_waiter i r ws)
      ≡ (if eqb i j then on_future (end_with r) (future_at j ws) else future_at j ws)
future_at-close i j r [] = ground arith
future_at-close zero zero r (w ∷ ws) = refl
future_at-close zero (suc j) r (w ∷ ws) = ground arith
future_at-close (suc i) zero r (w ∷ ws) = ground arith
future_at-close (suc i) (suc j) r (w ∷ ws) = ground (arith, future_at-close i j r ws)

pub run_at-decline_all :
    (d : Dict ℕ) (j : ℕ) (ws : List Waiter) → run_at j (decline_all d ws) ≡ run_at j ws
run_at-decline_all [] j ws = refl
run_at-decline_all ((run, i) ∷ d) j ws =
    run_at-decline_all d j (resolve i (accepted false) ws) ∙ run_at-resolve i j (accepted false) ws

-- Places at and past the end, where the next future goes.
pub run_at-append :
    (j : ℕ) (w : Waiter) (ws : List Waiter)
    → run_at j (ws ++ w ∷ []) ≡ (if eqb j (length ws) then some w.run else run_at j ws)
run_at-append zero w [] = refl
run_at-append (suc j) w [] = ground arith
run_at-append zero w (v ∷ ws) = ground arith
run_at-append (suc j) w (v ∷ ws) = ground (arith, run_at-append j w ws)

pub future_at-append :
    (j : ℕ) (w : Waiter) (ws : List Waiter)
    → future_at j (ws ++ w ∷ []) ≡ (if eqb j (length ws) then some w.future else future_at j ws)
future_at-append zero w [] = refl
future_at-append (suc j) w [] = ground arith
future_at-append zero w (v ∷ ws) = ground arith
future_at-append (suc j) w (v ∷ ws) = ground (arith, future_at-append j w ws)

pub future_at_end : (j : ℕ) (ws : List Waiter) → length ws ≤ j → future_at j ws ≡ none
future_at_end j [] h = refl
future_at_end zero (w ∷ ws) h = absurd (omega arith)
future_at_end (suc j) (w ∷ ws) h = future_at_end j ws (omega arith)

pub run_at_of_future :
    (j : ℕ) (f : Future) (ws : List Waiter)
    → future_at j ws ≡ some f
    → (r : String) × (run_at j ws ≡ some r)
run_at_of_future j f [] h = cc
run_at_of_future zero f (w ∷ ws) h = (w.run, refl)
run_at_of_future (suc j) f (w ∷ ws) h = run_at_of_future j f ws h

abbrev pub is_pending : Option Future → Bool
is_pending (some pending) = true
is_pending _ = false

abbrev pub is_live : Option Future → Bool
is_live none = false
is_live (some (ended r)) = false
is_live (some pending) = true
is_live (some (done a)) = true

-- A future that is answered, or given up, stays so while the others are declined.
pub decline_all_keeps :
    (d : Dict ℕ) (i : ℕ) (ws : List Waiter)
    → is_pending (future_at i ws) ≡ false
    → is_pending (future_at i (decline_all d ws)) ≡ false
decline_all_keeps [] i ws h = h
decline_all_keeps ((run, k) ∷ d) i ws h =
    decline_all_keeps d i (resolve k (accepted false) ws)
      (ground (arith, future_at-resolve k i (accepted false) ws))

pub decline_all-not-pending :
    (d : Dict ℕ) (run : String) (i : ℕ) (ws : List Waiter)
    → lookup run d ≡ some i
    → is_pending (future_at i (decline_all d ws)) ≡ false
decline_all-not-pending [] run i ws h = cc
decline_all-not-pending ((r, k) ∷ d) run i ws h = elim (Bool-cases (r == run)) [
  | inl e ↦
      decline_all_keeps d i (resolve k (accepted false) ws)
        (ground (arith, future_at-resolve k i (accepted false) ws))
  | inr e ↦ decline_all-not-pending d run i (resolve k (accepted false) ws) (ground arith)
]

pub is_live-decline_all :
    (d : Dict ℕ) (i : ℕ) (ws : List Waiter)
    → is_live (future_at i (decline_all d ws)) ≡ is_live (future_at i ws)
is_live-decline_all [] i ws = refl
is_live-decline_all ((run, k) ∷ d) i ws =
    is_live-decline_all d i (resolve k (accepted false) ws)
    ∙ ground (arith, future_at-resolve k i (accepted false) ws)
