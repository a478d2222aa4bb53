-- ===== src/AgentSdk/Queries/Laws.antt =====
-- When a question is answered, and that no socket leaves one behind.
use agent_souk_server.AgentSdk.Queries.{
  Future, open_yet, result, exception, dropped, Link, set_done, settle_at, outcome_of,
  resolve_query, fail_each, fail_pending_queries,
}
use agent_souk_server.Base.{
  ℕ, zero, suc, String, ◌==◌, ◌≡◌, refl, ap, ◌≢◌, inl, inr, some, List, [], ◌∷◌, Bool-cases,
  get_elem?, subst, some_inj, none-ne-some,
}
use agent_souk_server.Base.Json.{Json, str, Fields, get, is_null}
use agent_souk_server.Base.Dict.{Dict, lookup}

pub settle_at_self :
    (fs : List Future) (i : ℕ)
    → get_elem? fs i ≡ some open_yet
    → (f : Future) → get_elem? (settle_at i f fs) i ≡ some f
settle_at_self [] i h f = cc
settle_at_self (g ∷ fs) zero h f = rw (some_inj h) refl
settle_at_self (g ∷ fs) (suc i) h f = settle_at_self fs i h f

pub settle_at-other :
    (fs : List Future) (i j : ℕ) (f : Future)
    → i ≢ j
    → get_elem? (settle_at i f fs) j ≡ get_elem? fs j
settle_at-other [] i j f h = refl
settle_at-other (g ∷ fs) zero zero f h = absurd (h refl)
settle_at-other (g ∷ fs) zero (suc j) f h = refl
settle_at-other (g ∷ fs) (suc i) zero f h = refl
settle_at-other (g ∷ fs) (suc i) (suc j) f h = settle_at-other fs i j f (λ e. h (ap suc e))

set_done-outcome :
    (text : Json → String) (frame : Fields) (f g : Future)
    → set_done f (set_done (outcome_of text frame) g) ≡ set_done (outcome_of text frame) g
set_done-outcome text frame f open_yet = elim (Bool-cases (is_null (get "error" frame))) [
  | inl e ↦ rw e refl
  | inr e ↦ rw e refl
]
set_done-outcome text frame f (result v) = refl
set_done-outcome text frame f (exception why) = refl
set_done-outcome text frame f dropped = refl

settle_at-again :
    (text : Json → String) (frame : Fields) (f : Future) (fs : List Future) (i : ℕ)
    → settle_at i f (settle_at i (outcome_of text frame) fs)
      ≡ settle_at i (outcome_of text frame) fs
settle_at-again text frame f [] i = refl
settle_at-again text frame f (g ∷ fs) zero = λ k. set_done-outcome text frame f g k ∷ fs
settle_at-again text frame f (g ∷ fs) (suc i) = λ k. g ∷ settle_at-again text frame f fs i k

-- An answer to a question that is pending, with its future open, settles that future and no other,
-- with what the frame says: its error as a failure, else its result, where a missing one counts as no
-- messages. A later frame for the same question changes nothing.
pub resolve_query-settles :
    (text : Json → String) (frame again : Fields) (id : String) (i : ℕ) (l : Link)
    → get "queryId" frame ≡ str id
    → get "queryId" again ≡ str id
    → lookup id l.pending ≡ some i
    → get_elem? l.futures i ≡ some open_yet
    → (m : Link) × (resolve_query text frame l ≡ some m)
      × (get_elem? m.futures i ≡ some (outcome_of text frame))
      × ((j : ℕ) → i ≢ j → get_elem? m.futures j ≡ get_elem? l.futures j)
      × (resolve_query text again m ≡ some m)
unfolding resolve_query
resolve_query-settles text frame again id i l hf ha hi ho =
    rw (hf, ha, hi)
      (
        record l { futures = settle_at i (outcome_of text frame) l.futures },
        refl,
        settle_at_self l.futures i ho (outcome_of text frame),
        (λ j h. settle_at-other l.futures i j (outcome_of text frame) h),
        rw hi (λ k. some (record l {
          futures = settle_at-again text frame (outcome_of text again) l.futures i k;
        })),
      )

settle_at-settled :
    (fs : List Future) (i j : ℕ) (f : Future)
    → get_elem? fs j ≢ some open_yet
    → f ≢ open_yet
    → get_elem? (settle_at i f fs) j ≢ some open_yet
settle_at-settled [] i j f h n = h
settle_at-settled (g ∷ fs) (suc i) zero f h n = h
settle_at-settled (g ∷ fs) (suc i) (suc j) f h n = settle_at-settled fs i j f h n
settle_at-settled (g ∷ fs) zero (suc j) f h n = h
settle_at-settled (open_yet ∷ fs) zero zero f h n = λ e. n (some_inj e)
settle_at-settled (result v ∷ fs) zero zero f h n = h
settle_at-settled (exception why ∷ fs) zero zero f h n = h
settle_at-settled (dropped ∷ fs) zero zero f h n = h

pub settle_at-settles :
    (fs : List Future) (i : ℕ) (f : Future)
    → f ≢ open_yet
    → get_elem? (settle_at i f fs) i ≢ some open_yet
settle_at-settles [] i f n = λ e. cc
settle_at-settles (g ∷ fs) (suc i) f n = settle_at-settles fs i f n
settle_at-settles (open_yet ∷ fs) zero f n = λ e. n (some_inj e)
settle_at-settles (result v ∷ fs) zero f n = λ e. cc
settle_at-settles (exception why ∷ fs) zero f n = λ e. cc
settle_at-settles (dropped ∷ fs) zero f n = λ e. cc

pub exception-ne : {why : String} → exception why ≢ open_yet
exception-ne e = cc

fail_each-settled :
    (why : String) (d : Dict ℕ) (fs : List Future) (j : ℕ)
    → get_elem? fs j ≢ some open_yet
    → get_elem? (fail_each why d fs) j ≢ some open_yet
fail_each-settled why [] fs j h = h
fail_each-settled why ((id, i) ∷ d) fs j h =
    fail_each-settled why d (settle_at i (exception why) fs) j
      (settle_at-settled fs i j (exception why) h exception-ne)

pub fail_each-settles :
    (why : String) (d : Dict ℕ) (fs : List Future) (id : String) (i : ℕ)
    → lookup id d ≡ some i
    → get_elem? (fail_each why d fs) i ≢ some open_yet
fail_each-settles why [] fs id i h = absurd (none-ne-some h)
fail_each-settles why ((k, j) ∷ d) fs id i h = elim (Bool-cases (k == id)) [
  | inl e ↦
      subst (λ x. get_elem? (fail_each why d (settle_at j (exception why) fs)) x ≢ some open_yet)
        (some_inj (rw e at h))
        (fail_each-settled why d (settle_at j (exception why) fs) j
          (settle_at-settles fs j (exception why) exception-ne))
  | inr e ↦ fail_each-settles why d (settle_at j (exception why) fs) id i (rw e at h)
]

-- A lost connection leaves no question that it had pending open, wherever in the dict it stands,
-- reopens none, and forgets them all.
pub fail_pending_queries-settles :
    (why id : String) (i : ℕ) (l : Link)
    → lookup id l.pending ≡ some i
    → (get_elem? (fail_pending_queries why l).futures i ≢ some open_yet)
      × ((j : ℕ)
          → get_elem? l.futures j ≢ some open_yet
          → get_elem? (fail_pending_queries why l).futures j ≢ some open_yet)
      × ((fail_pending_queries why l).pending ≡ [])
unfolding fail_pending_queries
fail_pending_queries-settles why id i l h = (
  fail_each-settles why l.pending l.futures id i h,
  (λ j n. fail_each-settled why l.pending l.futures j n),
  refl,
)
