-- ===== src/Delegation/Tool/Continuity.antt =====
-- One conversation with a sub-agent: the context that a call returned is the context of the next.
use agent_souk_server.Delegation.{SubAgentConfig, Address, address}
use agent_souk_server.Delegation.Calls.{Call, Flow, running, broken, follow_call}
use agent_souk_server.Delegation.Tool.{
  A2aCall, with_references, text_message, message_of, metadata_of, params_with, body_of, A2aReply,
  updates_of, AgentDeps, context_of, call_for, started_with, ended_call, call_at, call_sub_agent,
}
use agent_souk_server.Delegation.Tool.Contexts.{last_context, follow_call-noted, last_context-told}
use agent_souk_server.Base.{
  ℕ, String, ◌==◌, eq_refl, ◌≡◌, refl, ap, ◌∙◌, ◌≢◌, Bool, true, false, Option, none, some, List,
  [], ◌∷◌, if◌then◌else◌, ==_false, none-ne-some,
}
use agent_souk_server.Base.Json.{Json, null, obj, Fields, end, field, get, put, truthy}
use agent_souk_server.Base.Dict.{lookup}

abbrev member : String → Json → Json
member k (obj fs) = get k fs
member k _ = null

-- The context that a request names, `null` for none.
abbrev pub context_sent : Option (String × Fields) → Json
context_sent none = null
context_sent (some (url, body)) = member "contextId" (member "message" (member "params" (obj body)))

body_of-context :
    (url : String) (call : A2aCall)
    → truthy call.context_id ≡ true
    → context_sent (some (url, body_of call)) ≡ call.context_id
unfolding body_of
body_of-context url call t =
    ap (member "contextId") (params_with_lem (metadata_of call) (message_of call))
    ∙ rw t (put_lem call.reference_task_ids)
  where
    params_with_lem :
        (metadata message : Fields) → get "message" (params_with metadata message) ≡ obj message
    params_with_lem end message = refl
    params_with_lem (field k v fs) message = refl

    put_lem :
        (refs : List Json)
        → get "contextId" (
            put "contextId" call.context_id (with_references refs (text_message call.message_text)))
          ≡ call.context_id
    put_lem [] = refl
    put_lem (r ∷ rs) = refl

ended_call-sent :
    (sub : SubAgentConfig) (deps : AgentDeps) (sent : String × Fields) (cut_off : Bool) (f : Flow)
    → (ended_call sub deps sent cut_off f).sent ≡ some sent
ended_call-sent sub deps sent true (running c) = refl
ended_call-sent sub deps sent false (running c) = refl
ended_call-sent sub deps sent cut_off (broken c) = refl

-- An answered call went through all its updates, and left the context ids as they were then.
ended_call-answered :
    (sub : SubAgentConfig) (deps : AgentDeps) (sent : String × Fields) (cut_off : Bool) (f : Flow)
    (text : String)
    → (ended_call sub deps sent cut_off f).answer ≡ some text
    → (d : Call) × (f ≡ running d)
      × ((ended_call sub deps sent cut_off f).deps.sub_agent_context_ids ≡ d.contexts)
ended_call-answered sub deps sent true (running c) text a = absurd (none-ne-some a)
ended_call-answered sub deps sent false (running c) text a = (c, refl, refl)
ended_call-answered sub deps sent cut_off (broken c) text a = absurd (none-ne-some a)

module _ (decimal : ℕ → String) (loads : String → Option Json)
    (endpoint : String → Fields → A2aReply) where
  -- What a call of the tool received.
  abbrev pub received_by : SubAgentConfig → AgentDeps → String → String → Address → List Fields
  received_by sub deps id message place =
      let reply = endpoint place.url (body_of (call_for deps sub id message)) in
      (updates_of loads reply.events reply.raised).received

  -- The context ids that an answered call leaves.
  call_at-noted :
      (sub : SubAgentConfig) (deps : AgentDeps) (id message text j : String) (place : Address)
      → (call_at decimal loads endpoint sub deps id message place).answer ≡ some text
      → lookup j
          (call_at decimal loads endpoint sub deps id message place).deps.sub_agent_context_ids
        ≡ (if sub.name == j
            then last_context
                (received_by sub deps id message place)
                (lookup sub.name deps.sub_agent_context_ids)
            else lookup j deps.sub_agent_context_ids)
  call_at-noted sub deps id message text j place a =
      let body = body_of (call_for deps sub id message) in
      let reply = endpoint place.url body in
      let updates = updates_of loads reply.events reply.raised in
      let (d, through, kept) =
        ended_call-answered sub deps (place.url, body) updates.cut_off
          (follow_call sub place updates.received (started_with deps)) text a in
      ap (lookup j) kept
      ∙ follow_call-noted sub place updates.received (started_with deps) d j through

  pub call_at-sends :
      (sub : SubAgentConfig) (deps : AgentDeps) (id message : String) (place : Address) (v : Json)
      → lookup sub.name deps.sub_agent_context_ids ≡ some v
      → truthy v ≡ true
      → context_sent (call_at decimal loads endpoint sub deps id message place).sent ≡ v
  call_at-sends sub deps id message place v h t =
      let call = call_for deps sub id message in
      let reply = endpoint place.url (body_of call) in
      let updates = updates_of loads reply.events reply.raised in
      ap context_sent (
        ended_call-sent sub deps (place.url, body_of call) updates.cut_off
          (follow_call sub place updates.received (started_with deps)))
      ∙ body_of-context place.url call (rw h t)
      ∙ ap context_of h

  -- An answered call keeps the last context that it received.
  pub call_at-keeps :
      (sub : SubAgentConfig) (deps : AgentDeps) (id message text : String) (place : Address)
      (v : Json)
      → (call_at decimal loads endpoint sub deps id message place).answer ≡ some text
      → last_context (received_by sub deps id message place) none ≡ some v
      → (lookup sub.name
            (call_at decimal loads endpoint sub deps id message place).deps.sub_agent_context_ids
          ≡ some v)
        × (truthy v ≡ true)
  call_at-keeps sub deps id message text place v a l =
      let (last_is, t) =
        last_context-told (received_by sub deps id message place)
          (lookup sub.name deps.sub_agent_context_ids) v l in
      (
        (rw (eq_refl sub.name) at (call_at-noted sub deps id message text sub.name place a))
            ∙ last_is,
        t,
      )

  -- When a call of a sub-agent was answered and its updates returned a context, the next call of that
  -- sub-agent with the same context ids, whatever its message, its id and its address, names the last
  -- context that was returned, while the context of every sub-agent with another name is still what it
  -- was.
  pub call_sub_agent-continues :
      (sub : SubAgentConfig) (place next : Address) (deps : AgentDeps)
      (id next_id message next_message text : String) (v : Json)
      → (call_sub_agent decimal loads endpoint sub (address place) deps id message).answer
        ≡ some text
      → last_context (received_by sub deps id message place) none ≡ some v
      → (let left =
            (call_sub_agent decimal loads endpoint sub (address place) deps id message).deps in
          (context_sent
              (call_sub_agent decimal loads endpoint sub
                (address next)
                left
                next_id
                next_message).sent
            ≡ v)
          × ((other : String)
              → sub.name ≢ other
              → lookup other left.sub_agent_context_ids ≡ lookup other deps.sub_agent_context_ids))
  unfolding call_sub_agent
  call_sub_agent-continues sub place next deps id next_id message next_message text v a l =
      let left = (call_at decimal loads endpoint sub deps id message place).deps in
      let (kept, t) = call_at-keeps sub deps id message text place v a l in
      (
        call_at-sends sub left next_id next_message next v kept t,
        λ other ne.
            rw (==_false sub.name other ne) at
              (call_at-noted sub deps id message text other place a),
      )
