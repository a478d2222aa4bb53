-- ===== src/Client/Laws.antt =====
-- What `resolve` picks, and which ids `run` leaves behind.
use agent_souk_server.Client.{
  Row, Agent, roster, is_candidate, resolved, agent_not_found, ambiguous_name, sole, resolve, Ids,
  thread_of, is_run_started, on_event, follow, run_ids,
}
use agent_souk_server.Base.{
  String, ◌≡◌, refl, ap, ◌∙◌, ◌↔◌, true, false, Option, List, [], ◌∷◌, ◌++◌, select, All,
}
use agent_souk_server.Base.Json.{str, Fields, get}

-- A name is resolved exactly if the roster has one row for it, under the given provider if there is
-- one, and then to that row's agent: never to one of several.
pub resolve_unique :
    (name : String) (provider : Option String) (rows : List Row) (a : Agent)
    → (resolve name provider rows ≡ resolved a)
      ↔ (select (is_candidate name provider) (roster rows) ≡ a ∷ [])
unfolding resolve
resolve_unique name provider rows a =
    (only (select (is_candidate name provider) (roster rows)), λ e. rw e refl)
  where
    only : (xs : List Agent) → sole xs ≡ resolved a → xs ≡ a ∷ []
    only [] h = absurd (not_found-ne h)
      where
        not_found-ne : agent_not_found ≡ resolved a → ⊥
        not_found-ne e = cc
    only (b ∷ []) h = ap (λ x. x ∷ []) (resolved_inj h)
      where
        resolved_inj : {x y : Agent} → resolved x ≡ resolved y → x ≡ y
        resolved_inj e = cc
    only (b ∷ c ∷ xs) h = absurd (ambiguous-ne h)
      where
        ambiguous-ne : {es : List Agent} → ambiguous_name es ≡ resolved a → ⊥
        ambiguous-ne e = cc

follow-quiet :
    (thread_id : String) (events : List Fields) (ids : Ids)
    → All (λ e. is_run_started e ≡ false) events
    → follow thread_id events ids ≡ ids
unfolding follow on_event
follow-quiet thread_id [] ids h = refl
follow-quiet thread_id (e ∷ events) ids h = rw (h.0) (follow-quiet thread_id events ids (h.1))

follow-append :
    (thread_id : String) (before after : List Fields) (ids : Ids)
    → follow thread_id (before ++ after) ids ≡ follow thread_id after (follow thread_id before ids)
unfolding follow
follow-append thread_id [] after ids = refl
follow-append thread_id (e ∷ before) after ids =
    follow-append thread_id before after (on_event thread_id e ids)

-- A run's ids are those of its last RUN_STARTED event, whatever came before it and whatever comes
-- after, and in a run with none only the thread's id is set, to the one that was asked for.
pub run_ids-last :
    (thread_id : String) (before after : List Fields) (event : Fields) (ids : Ids)
    → is_run_started event ≡ true
    → All (λ e. is_run_started e ≡ false) after
    → (run_ids thread_id (before ++ event ∷ after) ids
        ≡ record { last_thread_id = thread_of thread_id event; last_run_id = get "runId" event })
      × (run_ids thread_id after ids ≡ record ids { last_thread_id = str thread_id })
unfolding run_ids follow on_event
run_ids-last thread_id before after event ids started quiet = (
  follow-append thread_id before (event ∷ after) (record ids { last_thread_id = str thread_id })
      ∙ rw started (follow-quiet thread_id after _ quiet),
  follow-quiet thread_id after (record ids { last_thread_id = str thread_id }) quiet,
)
