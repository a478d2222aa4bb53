-- ===== src/Agents/Relay/Protocol.antt =====
-- The relay keeps the order of AG-UI.
use agent_souk_server.Agents.Events.{
  text_message_content, before, speaking, over, starts, opens, speaks, closes, finishes, fails,
  breaks_off, Trace, rests, goes, Trace-append,
}
use agent_souk_server.Agents.Relay.{
  AgentConfig, RunInput, Request, Reply, Fault, request_of, delta_of, choices_of, message_id,
  run_stream,
}
use agent_souk_server.Agents.Relay.Speech.{
  read_delta, deltas_of, then_read, read_chunk, read_off, script, run_stream-script,
}
use agent_souk_server.Base.{
  String, ◌==◌, ◌≡◌, sym, ◌⊎◌, inl, inr, true, Option, none, some, List, [], ◌∷◌, map, Bool-cases,
  All, All-append, subst,
}
use agent_souk_server.Base.Json.{Json, truthy}

abbrev IsDelta : Json → Type 0
IsDelta d = truthy d ≡ true

read_delta-AllDeltas :
    (o : Option Json) (r : List Json × Option Fault)
    → All IsDelta r.0
    → All IsDelta (read_delta o r).0
read_delta-AllDeltas none r h = tt
read_delta-AllDeltas (some d) r h = elim (Bool-cases (truthy d)) [
  | inl e ↦ rw e (e, h)
  | inr e ↦ rw e h
]

deltas_of-AllDeltas : (choices : List Json) → All IsDelta (deltas_of choices).0
deltas_of-AllDeltas [] = tt
deltas_of-AllDeltas (c ∷ cs) =
    read_delta-AllDeltas (delta_of c) (deltas_of cs) (deltas_of-AllDeltas cs)

read_chunk-AllDeltas :
    (c : Fault ⊎ List Json) (r : List Json × Option Fault)
    → All IsDelta r.0
    → All IsDelta (read_chunk c r).0
read_chunk-AllDeltas (inl f) r h = tt
read_chunk-AllDeltas (inr cs) r h = joined (deltas_of cs) (deltas_of-AllDeltas cs)
  where
    joined : (q : List Json × Option Fault) → All IsDelta q.0 → All IsDelta (then_read q r).0
    joined (ds, some f) g = g
    joined (ds, none) g = All-append IsDelta ds r.0 g h

module _ (loads : String → Option Json) where
  read_off-AllDeltas :
      (data_texts : List String) (e : Option String) → All IsDelta (read_off loads data_texts e).0
  read_off-AllDeltas [] none = tt
  read_off-AllDeltas [] (some e) = tt
  read_off-AllDeltas (t ∷ ts) e = elim (Bool-cases (t == "[DONE]")) [
    | inl h ↦ rw h tt
    | inr h ↦ rw h (
        read_chunk-AllDeltas (choices_of t (loads t)) (read_off loads ts e)
          (read_off-AllDeltas ts e))
  ]

module _ (thread run id : String) where
  contents-Trace :
      (ds : List Json)
      → All IsDelta ds
      → Trace thread run (speaking id) (map (text_message_content id) ds) (speaking id)
  contents-Trace [] h = rests
  contents-Trace (d ∷ ds) h = goes (speaks id d h.0) (contents-Trace ds h.1)

script-Trace :
    (explain : Fault → String) (input : RunInput) (r : List Json × Option Fault)
    → All IsDelta r.0
    → Trace input.thread_id input.run_id before (script explain input r) over
script-Trace explain input ([], none) h = goes starts (goes finishes rests)
script-Trace explain input ([], some f) h = goes starts (goes (fails _) rests)
script-Trace explain input (d ∷ ds, none) h = goes starts (
    goes (opens (message_id input)) (
      Trace-append _ _ (contents-Trace _ _ (message_id input) (d ∷ ds) h)
        (goes (closes (message_id input)) (goes finishes rests))))
script-Trace explain input (d ∷ ds, some f) h = goes starts (
    goes (opens (message_id input)) (
      Trace-append _ _ (contents-Trace _ _ (message_id input) (d ∷ ds) h)
        (goes (breaks_off (message_id input) _) rests)))

module _ (explain : Fault → String) (loads : String → Option Json)
    (endpoint : Request → Reply) where
  -- Whatever the endpoint sends and wherever it breaks off, what the run yields keeps the order of
  -- AG-UI from the first event to the end of the run: it opens with RUN_STARTED, contents stand only
  -- inside the one message that was started and are never empty, the message is closed before
  -- RUN_FINISHED, and exactly one RUN_FINISHED or RUN_ERROR comes, as the last event.
  pub run_stream-Trace :
      (agent : AgentConfig) (input : RunInput)
      → Trace input.thread_id input.run_id before
          (run_stream explain loads endpoint agent input)
          over
  run_stream-Trace agent input =
      let reply = endpoint (request_of agent input) in
      subst (λ es. Trace input.thread_id input.run_id before es over)
        (sym (run_stream-script explain loads endpoint agent input))
        (script-Trace explain input (read_off loads reply.events reply.raised)
          (read_off-AllDeltas loads reply.events reply.raised))
