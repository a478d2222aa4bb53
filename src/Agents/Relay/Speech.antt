-- ===== src/Agents/Relay/Speech.antt =====
-- What the relay says is what the endpoint sent, read off without the messages around it.
use agent_souk_server.Agents.Events.{
  Event, run_started, text_message_start, text_message_content, text_message_end, run_finished,
  run_error,
}
use agent_souk_server.Agents.Relay.{
  AgentConfig, RunInput, Request, Reply, Fault, upstream, no_get, Said, request_of, delta_of,
  choices_of, stopped, ahead, content, on_delta, on_choices, after_choices, on_chunk, on_events,
  message_id, ended_by, run_stream,
}
use agent_souk_server.Base.{
  String, ◌<>◌, ◌==◌, ◌≡◌, refl, sym, ap, ◌∙◌, ◌⊎◌, inl, inr, Bool, true, false, Option, none, some,
  List, [], ◌∷◌, ◌++◌, map, if◌then◌else◌, Bool-cases,
}
use agent_souk_server.Base.Json.{Json, truthy}

abbrev ReadOff : Type 0
ReadOff = List Json × Option Fault

abbrev before_it : List Json → ReadOff → ReadOff
before_it ds (es, f) = (ds ++ es, f)

abbrev pub read_delta : Option Json → ReadOff → ReadOff
read_delta none rest = ([], some no_get)
read_delta (some delta) rest = if truthy delta then before_it (delta ∷ []) rest else rest

-- The deltas that are not empty, up to the first choice that is none.
abbrev pub deltas_of : List Json → ReadOff
deltas_of [] = ([], none)
deltas_of (choice ∷ choices) = read_delta (delta_of choice) (deltas_of choices)

abbrev pub then_read : ReadOff → ReadOff → ReadOff
then_read (ds, some f) rest = (ds, some f)
then_read (ds, none) rest = before_it ds rest

abbrev pub read_chunk : Fault ⊎ List Json → ReadOff → ReadOff
read_chunk (inl f) rest = ([], some f)
read_chunk (inr choices) rest = then_read (deltas_of choices) rest

module _ (loads : String → Option Json) where
  -- All deltas of the endpoint's events before the one that marks the end, and the exception that cut them off.
  abbrev pub read_off : List String → Option String → ReadOff
  read_off [] none = ([], none)
  read_off [] (some e) = ([], some (upstream e))
  read_off (data_text ∷ rest) e =
      let more = read_off rest e in
      if data_text == "[DONE]"
      then ([], none)
      else read_chunk (choices_of data_text (loads data_text)) more

-- Deltas as contents of one message, which the first of them starts.
abbrev pub spoken : String → Bool → List Json → List Event
spoken id true ds = map (text_message_content id) ds
spoken id false [] = []
spoken id false (d ∷ ds) =
    text_message_start id ∷ text_message_content id d ∷ map (text_message_content id) ds

abbrev pub is_started : Bool → List Json → Bool
is_started true ds = true
is_started false [] = false
is_started false (d ∷ ds) = true

-- What a loop yields and leaves, by what there is to read off.
abbrev pub say : String → Bool → ReadOff → Said
say id started (ds, f) = record {
  yielded = spoken id started ds;
  started = is_started started ds;
  fault = f;
}

module _ (id : String) where
  contents-append :
      (ds es : List Json)
      → map (text_message_content id) (ds ++ es)
        ≡ map (text_message_content id) ds ++ map (text_message_content id) es
  contents-append [] es = refl
  contents-append (d ∷ ds) es = ap (◌∷◌ (text_message_content id d)) (contents-append ds es)

  -- Saying some deltas and then the rest is saying them all.
  say-append :
      (b : Bool) (ds : List Json) (r : ReadOff)
      → ahead (spoken id b ds) (say id (is_started b ds) r) ≡ say id b (before_it ds r)
  say-append true ds (es, f) =
      ap (λ l. record { yielded = l; started = true; fault = f }) (sym (contents-append ds es))
  say-append false [] (es, f) = refl
  say-append false (d ∷ ds) (es, f) =
      ap
        (λ l. record {
          yielded = text_message_start id ∷ text_message_content id d ∷ l;
          started = true;
          fault = f;
        })
        (sym (contents-append ds es))

  on_delta-say :
      (b : Bool) (o : Option Json) (r : ReadOff) (rest : Bool → Said)
      → ((s : Bool) → rest s ≡ say id s r)
      → on_delta id o b rest ≡ say id b (read_delta o r)
  on_delta-say b none r rest h = spoken_none b
    where
      spoken_none : (s : Bool) → stopped s (some no_get) ≡ say id s ([], some no_get)
      spoken_none true = refl
      spoken_none false = refl
  on_delta-say b (some d) r rest h = elim (Bool-cases (truthy d)) [
    | inl e ↦ rw (e, h true) (starting b)
    | inr e ↦ rw e (h b)
  ]
    where
      starting :
          (s : Bool) → ahead (content id s d) (say id true r) ≡ say id s (before_it (d ∷ []) r)
      starting true = refl
      starting false = refl

  on_choices-say :
      (choices : List Json) (b : Bool) → on_choices id choices b ≡ say id b (deltas_of choices)
  on_choices-say [] true = refl
  on_choices-say [] false = refl
  on_choices-say (c ∷ cs) b =
      on_delta-say b (delta_of c) (deltas_of cs) (on_choices id cs) (on_choices-say cs)

  after_choices-say :
      (b : Bool) (q r : ReadOff) (rest : Bool → Said)
      → ((s : Bool) → rest s ≡ say id s r)
      → after_choices (say id b q) rest ≡ say id b (then_read q r)
  after_choices-say b (ds, some f) r rest h = refl
  after_choices-say b (ds, none) r rest h =
      ap (ahead (spoken id b ds)) (h (is_started b ds)) ∙ say-append b ds r

  stopped-say : (b : Bool) (f : Option Fault) → stopped b f ≡ say id b ([], f)
  stopped-say true f = refl
  stopped-say false f = refl

  on_chunk-say :
      (b : Bool) (c : Fault ⊎ List Json) (r : ReadOff) (rest : Bool → Said)
      → ((s : Bool) → rest s ≡ say id s r)
      → on_chunk id c b rest ≡ say id b (read_chunk c r)
  on_chunk-say b (inl f) r rest h = stopped-say b (some f)
  on_chunk-say b (inr cs) r rest h =
      ap (λ said. after_choices said rest) (on_choices-say cs b)
      ∙ after_choices-say b (deltas_of cs) r rest h

  module _ (loads : String → Option Json) where
    pub on_events-say :
        (data_texts : List String) (e : Option String) (b : Bool)
        → on_events loads id data_texts e b ≡ say id b (read_off loads data_texts e)
    on_events-say [] none b = stopped-say b none
    on_events-say [] (some e) b = stopped-say b (some (upstream e))
    on_events-say (t ∷ ts) e b = elim (Bool-cases (t == "[DONE]")) [
      | inl h ↦ rw h (stopped-say b none)
      | inr h ↦ rw h (
          on_chunk-say b (choices_of t (loads t)) (read_off loads ts e) (on_events loads id ts e)
            (on_events-say ts e))
    ]

-- What the relay should yield: the run opened, the deltas as one message when there are any, and
-- then the end that the reading came to.
abbrev pub script : (Fault → String) → RunInput → ReadOff → List Event
script explain input ([], none) =
    run_started input.thread_id input.run_id ∷ run_finished input.thread_id input.run_id ∷ []
script explain input ([], some f) =
    run_started input.thread_id input.run_id
    ∷ run_error ("upstream call failed: " <> explain f)
    ∷ []
script explain input (d ∷ ds, none) =
    run_started input.thread_id input.run_id
      ∷ text_message_start (message_id input)
      ∷ map (text_message_content (message_id input)) (d ∷ ds)
    ++ text_message_end (message_id input) ∷ run_finished input.thread_id input.run_id ∷ []
script explain input (d ∷ ds, some f) =
    run_started input.thread_id input.run_id
      ∷ text_message_start (message_id input)
      ∷ map (text_message_content (message_id input)) (d ∷ ds)
    ++ run_error ("upstream call failed: " <> explain f) ∷ []

module _ (explain : Fault → String) (loads : String → Option Json)
    (endpoint : Request → Reply) where
  -- What a run yields is the script of what there is to read off the endpoint's reply to the one
  -- request that the run makes: every delta that is not empty, in order, in one message, and after it
  -- either the two last events or one error.
  pub run_stream-script :
      (agent : AgentConfig) (input : RunInput)
      → (let reply = endpoint (request_of agent input) in
          run_stream explain loads endpoint agent input
          ≡ script explain input (read_off loads reply.events reply.raised))
  unfolding run_stream
  run_stream-script agent input =
      let reply = endpoint (request_of agent input) in
      ap (λ said. run_started input.thread_id input.run_id ∷ ended_by explain input said)
        (on_events-say (message_id input) loads reply.events reply.raised false)
      ∙ scripted (read_off loads reply.events reply.raised)
    where
      scripted :
          (r : ReadOff)
          → run_started input.thread_id input.run_id
              ∷ ended_by explain input (say (message_id input) false r)
            ≡ script explain input r
      scripted ([], none) = refl
      scripted ([], some f) = refl
      scripted (d ∷ ds, none) = refl
      scripted (d ∷ ds, some f) = refl
