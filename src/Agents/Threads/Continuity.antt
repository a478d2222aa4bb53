-- ===== src/Agents/Threads/Continuity.antt =====
-- One conversation with an agent is one conversation with each of its sub-agents.
use agent_souk_server.Delegation.{SubAgentConfig, Address}
use agent_souk_server.Delegation.Tool.{A2aReply, call_at, call_sub_agent}
use agent_souk_server.Delegation.Tool.Contexts.{last_context}
use agent_souk_server.Delegation.Tool.Continuity.{
  context_sent, received_by, call_at-sends, call_at-keeps,
}
use agent_souk_server.Agents.Threads.{
  Run, CallIn, call_of, or_fresh, contexts_of, deps_in, call_in_run, threads_after, play,
}
use agent_souk_server.Base.{
  ℕ, String, eq_refl, ◌≡◌, refl, ap, ◌∙◌, ◌≢◌, Option, none, some, List, [], ◌∷◌, ==_false, All,
}
use agent_souk_server.Base.Json.{Json, Fields}
use agent_souk_server.Base.Dict.{Dict, lookup, insert, lookup-insert}

-- A call in a run of another thread.
abbrev pub IsElsewhere : String → CallIn → Type 0
IsElsewhere thread_id c = c.run.thread_id ≢ thread_id

module _ (decimal : ℕ → String) (loads : String → Option Json)
    (endpoint : String → Fields → A2aReply) where
  play-elsewhere :
      (thread_id : String) (cs : List CallIn) (threads : Dict (Dict Json))
      → All (IsElsewhere thread_id) cs
      → lookup thread_id (play decimal loads endpoint cs threads) ≡ lookup thread_id threads
  unfolding play threads_after
  play-elsewhere thread_id [] threads h = refl
  play-elsewhere thread_id (c ∷ cs) threads h =
      play-elsewhere thread_id cs (threads_after decimal loads endpoint c threads) h.1
      ∙ (rw (==_false c.run.thread_id thread_id (h.0)) at (
          lookup-insert c.run.thread_id thread_id
            (call_in_run decimal loads endpoint c threads).deps.sub_agent_context_ids threads))

  -- When a sub-agent answered a call in a run of a thread and returned a context with its updates, and
  -- then any calls were made in runs of other threads, the next call of that sub-agent in a run of the
  -- first thread, the same run or another, names the last context that was returned.
  pub call_in_run-continues :
      (run next_run : Run) (sub : SubAgentConfig) (place next_place : Address)
      (id next_id message next_message text : String) (v : Json) (between : List CallIn)
      (threads : Dict (Dict Json))
      → next_run.thread_id ≡ run.thread_id
      → All (IsElsewhere run.thread_id) between
      → (call_in_run decimal loads endpoint (call_of run sub place id message) threads).answer
        ≡ some text
      → last_context
          (received_by decimal loads endpoint sub
            (deps_in run (contexts_of run.thread_id threads))
            id
            message
            place)
          none
        ≡ some v
      → context_sent
          (call_in_run decimal loads endpoint
            (call_of next_run sub next_place next_id next_message)
            (play decimal loads endpoint (call_of run sub place id message ∷ between) threads)).sent
        ≡ v
  unfolding call_in_run play threads_after call_sub_agent
  call_in_run-continues run next_run sub place next_place id next_id message next_message text v
        between threads t away a l =
      let deps = deps_in run (contexts_of run.thread_id threads) in
      let left =
        (call_at decimal loads endpoint sub deps id message place).deps.sub_agent_context_ids in
      let later = insert run.thread_id left threads in
      let (kept, filled) =
        call_at-keeps decimal loads endpoint sub deps id message text place v a l in
      call_at-sends decimal loads endpoint sub
        (deps_in next_run
          (contexts_of next_run.thread_id (play decimal loads endpoint between later)))
        next_id next_message next_place v
        (ap (lookup sub.name) (
            ap or_fresh (
              ap (λ x. lookup x (play decimal loads endpoint between later)) t
              ∙ play-elsewhere run.thread_id between later away
              ∙ (rw (eq_refl run.thread_id) at
                  (lookup-insert run.thread_id run.thread_id left threads))))
          ∙ kept)
        filled
