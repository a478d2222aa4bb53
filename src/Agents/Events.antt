-- ===== src/Agents/Events.antt =====
-- The AG-UI events that the agents yield, dicts in Python, and the order that AG-UI sets for the
-- events of one run.
use agent_souk_server.Base.{String, ◌≡◌, true, List, [], ◌∷◌, ◌++◌}
use agent_souk_server.Base.Json.{Json, truthy}

-- A delta is what the model sent, a value that Python holds true.
pub data Event : Type 0 where
  run_started : String → String → Event
  text_message_start : String → Event
  text_message_content : String → Json → Event
  text_message_end : String → Event
  run_finished : String → String → Event
  run_error : String → Event

-- Nothing was sent; the run is open; a message with an id is; the run has ended.
pub data Phase : Type 0 where
  before : Phase
  open_run : Phase
  speaking : String → Phase
  over : Phase

module _ (thread run : String) where
  -- What may follow in a run of a thread.
  pub data Step : Phase → Event → Phase → Type 0 where
    starts : Step before (run_started thread run) open_run
    opens : (id : String) → Step open_run (text_message_start id) (speaking id)
    speaks :
        (id : String) (delta : Json)
        → truthy delta ≡ true
        → Step (speaking id) (text_message_content id delta) (speaking id)
    closes : (id : String) → Step (speaking id) (text_message_end id) open_run
    finishes : Step open_run (run_finished thread run) over
    fails : (reason : String) → Step open_run (run_error reason) over
    breaks_off : (id reason : String) → Step (speaking id) (run_error reason) over

  -- A list of events takes a run from one phase to another.
  pub data Trace : Phase → List Event → Phase → Type 0 where
    rests : {p : Phase} → Trace p [] p
    goes :
        {p q r : Phase} {e : Event} {es : List Event}
        → Step p e q
        → Trace q es r
        → Trace p (e ∷ es) r

  pub Trace-append :
      {p q r : Phase} {es fs : List Event} → Trace p es q → Trace q fs r → Trace p (es ++ fs) r
  Trace-append rests t = t
  Trace-append (goes s u) t = goes s (Trace-append u t)
