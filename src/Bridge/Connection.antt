-- ===== src/Bridge/Connection.antt =====
-- souk-client-sdk/souk_client_sdk/kyok_bridge.py: `_serve_connection` and `serve_forever`. A task is
-- told by its place among those that the connection started; what a connection sees is a list of
-- ticks: frames that arrive, and tasks that end.
pub mod Tasks
use agent_souk_server.Bridge.{
  Bridge, Failure, handshake, Llm, Turn, starts, ignores, raises, on_frame,
}
use agent_souk_server.Base.{
  ℕ, String, Bool, true, false, ◌||◌, Option, none, some, List, [], ◌∷◌, ◌++◌, eqb, if◌then◌else◌,
  length,
}
use agent_souk_server.Base.Json.{Json, Fields}

-- `attached`, the tasks that were started, with the request of each, `in_flight`, those that ended,
-- and those that were cancelled.
pub record Serving : Type 0 where
  pub attached : Bool
  pub started : List (Json × Fields)
  pub in_flight : List ℕ
  pub finished : List ℕ
  pub cancelled_tasks : List ℕ

pub data Tick : Type 0 where
  receives : Option Json → Tick
  task_ends : ℕ → Tick

-- The writer when the loop is left: it sends until it is cancelled, and some tasks end while that is
-- awaited; or an exception of its own, as of a closed socket, has ended it before.
pub data Writer : Type 0 where
  stops : List ℕ → Writer
  died : Writer

abbrev pub has : ℕ → List ℕ → Bool
has i [] = false
has i (j ∷ js) = eqb j i || has i js

-- `in_flight.discard(task)`
abbrev pub discard : ℕ → List ℕ → List ℕ
discard i [] = []
discard i (j ∷ js) = if eqb j i then discard i js else j ∷ discard i js

abbrev pub unattached : Serving
unattached = record {
  attached = false;
  started = [];
  in_flight = [];
  finished = [];
  cancelled_tasks = [];
}

abbrev pub start_task : Json → Fields → Serving → Serving
start_task request frame s = record s {
  started = s.started ++ (request, frame) ∷ [];
  in_flight = length s.started ∷ s.in_flight;
}

abbrev pub end_task : ℕ → Serving → Serving
end_task i s =
    if has i s.in_flight
    then record s { in_flight = discard i s.in_flight; finished = i ∷ s.finished }
    else s

abbrev pub end_tasks : List ℕ → Serving → Serving
end_tasks [] s = s
end_tasks (i ∷ is) s = end_tasks is (end_task i s)

-- The `finally` block. A writer that died raises again at `await writer`, which suppresses only
-- `CancelledError`, so that the tasks are not reached; those in flight leave by their callbacks.
abbrev pub tear_down : Writer → Serving → Serving
tear_down (stops late) s =
    let t = end_tasks late s in record t { attached = false; cancelled_tasks = t.in_flight }
tear_down died s = record s { attached = false }

module _ (llm : Llm) where
  -- `none`: the frame raises, out of the loop.
  abbrev pub on_turn : Turn llm → Serving → Option Serving
  on_turn (starts request frame) s = some (start_task request frame s)
  on_turn ignores s = some s
  on_turn raises s = none

  abbrev pub on_tick : Tick → Serving → Option Serving
  on_tick (receives raw) s = on_turn (on_frame llm raw) s
  on_tick (task_ends i) s = some (end_task i s)

  -- The loop over the messages, up to the end of the connection or a frame that raises.
  unfoldable pub run_ticks : List Tick → Serving → Serving
  run_ticks [] s = s
  run_ticks (t ∷ ts) s = elim (on_tick t s) [ none ↦ s | some next ↦ run_ticks ts next ]

  -- Once the handshake is over, by a welcome or an exception.
  abbrev pub after_handshake : Option Failure → List Tick → Writer → Serving
  after_handshake (some why) ticks w = unattached
  after_handshake none ticks w =
      tear_down w (run_ticks ticks (record unattached { attached = true }))

  unfoldable pub serve_connection :
      Bridge → String → Option Json → Option Json → List Tick → Writer → Serving
  serve_connection b nonce first second ticks w =
      after_handshake (handshake b nonce first second).failed ticks w

-- One time around the loop of `serve_forever`: whether souk took the registration, and the connection.
pub record Round : Type 0 where
  pub registers : Bool
  pub nonce : String
  pub first : Option Json
  pub second : Option Json
  pub ticks : List Tick
  pub writer : Writer

module _ (llm : Llm) (b : Bridge) where
  -- A registration that raises leaves the connection out.
  abbrev pub connection_of : Round → Option Serving
  connection_of r =
      if r.registers
      then some (serve_connection llm b r.nonce r.first r.second r.ticks r.writer)
      else none

  abbrev pub with_connection : Option Serving → List Serving → List Serving
  with_connection none rest = rest
  with_connection (some s) rest = s ∷ rest

  -- The connections that the loop had, in order, until it was cancelled.
  unfoldable pub serve_forever : List Round → List Serving
  unfolding serve_connection
  serve_forever [] = []
  serve_forever (r ∷ rs) = with_connection (connection_of r) (serve_forever rs)
