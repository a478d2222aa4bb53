-- ===== src/Agents/Threads.antt =====
-- providers/pydantic-ai-agent/pydantic_ai_agent/main.py: `sub_threads`, the context ids that the runs
-- of one thread share. The dict of a thread is handed to each of its runs as it is, so a call of a
-- sub-agent in one run writes what the next run of the thread reads.
pub mod Continuity
use agent_souk_server.Delegation.{SubAgentConfig, Address, Outcome, address}
use agent_souk_server.Delegation.Tool.{A2aReply, AgentDeps, ToolRun, call_sub_agent}
use agent_souk_server.Base.{ℕ, String, Option, none, some, List, [], ◌∷◌}
use agent_souk_server.Base.Json.{Json, Fields}
use agent_souk_server.Base.Dict.{Dict, lookup, insert}

-- The thread of a run, and what else of it its tools use.
pub record Run : Type 0 where
  pub thread_id : String
  pub run_id : Json
  pub actor_chain : Option (List String)

-- A call of a tool in a run.
pub record CallIn : Type 0 where
  pub run : Run
  pub sub : SubAgentConfig
  pub place : Outcome
  pub request_id : String
  pub message : String

abbrev pub call_of : Run → SubAgentConfig → Address → String → String → CallIn
call_of run sub place id message = record {
  run = run;
  sub = sub;
  place = address place;
  request_id = id;
  message = message;
}

abbrev pub or_fresh : Option (Dict Json) → Dict Json
or_fresh none = []
or_fresh (some d) = d

-- `sub_threads.setdefault(thread_id, {})`, for the thread's entry
abbrev pub contexts_of : String → Dict (Dict Json) → Dict Json
contexts_of thread_id threads = or_fresh (lookup thread_id threads)

abbrev pub deps_in : Run → Dict Json → AgentDeps
deps_in run contexts = record {
  run_id = run.run_id;
  actor_chain = run.actor_chain;
  progress = [];
  sub_agent_context_ids = contexts;
}

module _ (decimal : ℕ → String) (loads : String → Option Json)
    (endpoint : String → Fields → A2aReply) where
  unfoldable pub call_in_run : CallIn → Dict (Dict Json) → ToolRun
  call_in_run c threads =
      call_sub_agent decimal loads endpoint c.sub c.place
        (deps_in c.run (contexts_of c.run.thread_id threads)) c.request_id c.message

  unfoldable pub threads_after : CallIn → Dict (Dict Json) → Dict (Dict Json)
  unfolding call_in_run
  threads_after c threads =
      insert c.run.thread_id (call_in_run c threads).deps.sub_agent_context_ids threads

  unfoldable pub play : List CallIn → Dict (Dict Json) → Dict (Dict Json)
  unfolding threads_after
  play [] threads = threads
  play (c ∷ cs) threads = play cs (threads_after c threads)
