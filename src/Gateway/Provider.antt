-- ===== src/Gateway/Provider.antt =====
-- `SocketProvider` of souk_server/ws_provider.py. The futures that `deliver` makes stand in a list,
-- each with the run that it was made for, and `acks` names them by their place: what two holders
-- of one future see is what is shared. `deliver` is cut at its `await`: `deliver` runs up to it and
-- `deliver_rest` after it. souk's run and `DeliveredRun` are parameters.
pub mod Waiters
pub mod Steps
pub mod Answers
use agent_souk_server.Base.{
  ℕ, zero, suc, String, ◌<>◌, ◌==◌, ◌⊎◌, inl, inr, Bool, true, false, Option, none, some, List, [],
  ◌∷◌, ◌++◌, if◌then◌else◌, length,
}
use agent_souk_server.Base.Json.{Json, str, Fields, end, field, merge, as_str}
use agent_souk_server.Base.Dict.{Dict, lookup, insert, erase}

-- What `deliver` returns: `bool`, or souk's `Refusal` with its reason.
pub data Answer : Type 0 where
  accepted : Bool → Answer
  refusal : String → Answer

-- A future on which a `deliver` waits: not answered, answered, or left behind by a `deliver` that
-- has ended; `none` where that ended by `CancelledError`.
pub data Future : Type 0 where
  pending : Future
  done : Answer → Future
  ended : Option Answer → Future

pub record Waiter : Type 0 where
  pub run : String
  pub future : Future

pub record SocketProvider : Type 0 where
  pub public_key : String
  pub max_concurrent_runs : Json
  pub outbound : List Fields
  pub acks : Dict ℕ
  pub waiters : List Waiter

-- souk's side of a run: its id, and `DeliveredRun.from_claimed(run).model_dump(...)`, or the text of
-- its `ValidationError`.
pub record RunContract : Type 1 where
  pub Run : Type 0
  pub run_id : Run → String
  pub from_claimed : Run → String ⊎ Fields

-- The constructor; its check of the class's attributes passes for this class.
unfoldable pub connect : String → Json → SocketProvider
connect key max_runs = record {
  public_key = key;
  max_concurrent_runs = max_runs;
  outbound = [];
  acks = [];
  waiters = [];
}

-- `outbound.put_nowait(frame)`
abbrev pub enqueue : Fields → SocketProvider → SocketProvider
enqueue frame p = record p { outbound = p.outbound ++ frame ∷ [] }

-- `deliver` up to its `await`: it returns, or it waits on a future.
pub data Offer : Type 0 where
  returns : Answer → Offer
  waits_on : ℕ → Offer

module _ (c : RunContract) where
  abbrev pub start_offer : String → String ⊎ Fields → SocketProvider → Offer × SocketProvider
  start_offer run (inl problem) p =
      (returns (refusal ("input does not validate as RunAgentInput: " <> problem)), p)
  start_offer run (inr delivered) p = (
    waits_on (length p.waiters),
    enqueue (merge (field "type" (str "run") end) delivered) (record p {
      acks = insert run (length p.waiters) p.acks;
      waiters = p.waiters ++ (record { run = run; future = pending }) ∷ [];
    }),
  )

  unfoldable pub deliver : c.Run → SocketProvider → Offer × SocketProvider
  deliver run p = start_offer (c.run_id run) (c.from_claimed run) p

-- How the wait ends: by the future's answer, by `ACK_TIMEOUT_SECONDS`, or cancelled from outside.
pub data Wake : Type 0 where
  answered : Answer → Wake
  deadline : Wake
  cancelled : Wake

abbrev pub returned : Wake → Option Answer
returned (answered a) = some a
returned deadline = some (accepted false)
returned cancelled = none

abbrev pub close_waiter : ℕ → Option Answer → List Waiter → List Waiter
close_waiter i r [] = []
close_waiter zero r (w ∷ ws) = record w { future = ended r } ∷ ws
close_waiter (suc i) r (w ∷ ws) = w ∷ close_waiter i r ws

-- The rest of `deliver` for the future at `i`, its `finally` included.
unfoldable pub deliver_rest : String → ℕ → Wake → SocketProvider → Option Answer × SocketProvider
deliver_rest run i wake p = (
  returned wake,
  record p { acks = erase run p.acks; waiters = close_waiter i (returned wake) p.waiters },
)

-- The tests of `ack` on `accepted` and `reason`: a decline with a reason is for good.
abbrev pub declined : Option String → Answer
declined none = accepted false
declined (some reason) = if reason == "" then accepted false else refusal reason

abbrev pub answer_of : Bool → Json → Answer
answer_of true reason = accepted true
answer_of false reason = declined (as_str reason)

-- `if not waiter.done(): waiter.set_result(a)`
abbrev pub set_result : Answer → Future → Future
set_result a pending = done a
set_result a (done b) = done b
set_result a (ended r) = ended r

abbrev pub resolve : ℕ → Answer → List Waiter → List Waiter
resolve i a [] = []
resolve zero a (w ∷ ws) = record w { future = set_result a w.future } ∷ ws
resolve (suc i) a (w ∷ ws) = w ∷ resolve i a ws

abbrev pub settle : Option ℕ → Answer → SocketProvider → SocketProvider
settle none a p = p
settle (some i) a p = record p { waiters = resolve i a p.waiters }

unfoldable pub ack : String → Bool → Json → SocketProvider → SocketProvider
ack run ok reason p = settle (lookup run p.acks) (answer_of ok reason) p

unfoldable pub cancel : String → SocketProvider → SocketProvider
cancel run p = enqueue (field "type" (str "cancel") (field "runId" (str run) end)) p

abbrev pub decline_all : Dict ℕ → List Waiter → List Waiter
decline_all [] ws = ws
decline_all ((run, i) ∷ d) ws = decline_all d (resolve i (accepted false) ws)

unfoldable pub fail_pending : SocketProvider → SocketProvider
fail_pending p = record p { acks = []; waiters = decline_all p.acks p.waiters }
