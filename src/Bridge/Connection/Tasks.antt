-- ===== src/Bridge/Connection/Tasks.antt =====
-- What becomes of the tasks of a connection when it ends.
use agent_souk_server.Bridge.{Bridge}
use agent_souk_server.Bridge.Connection.{Serving, Writer, stops, died, has}
use agent_souk_server.Base.{ℕ, ◌<◌, ◌≡◌, true, ◌||◌, [], length}
use agent_souk_server.Base.Json.{Json}

-- Every task that was started is in flight or has ended.
abbrev IsKept : Serving → ℕ → Type 0
IsKept s i = i < length s.started → (has i s.in_flight || has i s.finished) ≡ true

-- What becomes of a task, by how the writer ended.
abbrev pub Fate : Writer → Serving → ℕ → Type 0
Fate (stops late) s i = (has i s.cancelled_tasks || has i s.finished) ≡ true
Fate died s i = (s.cancelled_tasks ≡ []) × ((has i s.in_flight || has i s.finished) ≡ true)

abbrev IsUncancelled : Serving → Type 0
IsUncancelled s = s.cancelled_tasks ≡ []
