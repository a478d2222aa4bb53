-- ===== src/Agents/Merge.antt =====
-- providers/pydantic-ai-agent/pydantic_ai_agent/main.py: `make_run_stream`, where the events of the
-- adapter and the progress of the tools meet in one queue. What the model library does is a list of
-- moves: events put, the adapter's task over, and turns of the reader.
pub mod Order
use agent_souk_server.Base.{Bool, true, false, List, [], ◌∷◌, ◌++◌, if◌then◌else◌}
use agent_souk_server.Base.Json.{Json}

-- A member of the queue: an event, or `_DONE`.
pub data Slot : Type 0 where
  item : Json → Slot
  done : Slot

-- `combined`, what the run yielded, whether `drain_adapter` is over, and whether the loop was left.
pub record Merge : Type 0 where
  pub combined : List Slot
  pub yielded : List Json
  pub drained : Bool
  pub left : Bool

-- The adapter or a tool puts an event; `drain_adapter` ends, by a return or an exception, and its
-- `finally` runs; the reader asks for the next item.
pub data Move : Type 0 where
  put_event : Json → Move
  drain_ends : Move
  next_item : Move

abbrev pub fresh : Merge
fresh = record { combined = []; yielded = []; drained = false; left = false }

abbrev take : List Slot → Merge → Merge
take [] m = m
take (item v ∷ rest) m = record m { combined = rest; yielded = m.yielded ++ v ∷ [] }
take (done ∷ rest) m = record m { combined = rest; left = true }

-- A task ends once.
abbrev end_drain : Merge → Merge
end_drain m =
    if m.drained then m else record m { combined = m.combined ++ done ∷ []; drained = true }

unfoldable pub step : Move → Merge → Merge
step (put_event v) m = record m { combined = m.combined ++ item v ∷ [] }
step drain_ends m = end_drain m
step next_item m = if m.left then m else take m.combined m

unfoldable pub run_moves : List Move → Merge → Merge
unfolding step
run_moves [] m = m
run_moves (mv ∷ mvs) m = run_moves mvs (step mv m)
