-- ===== src/AgentSdk/Provider.antt =====
-- `SoukProvider`: `_offer`, `cancel`, `report_event`, `finish_run` and the frame loop of
-- `_run_connection`. The runtime that runs the agents, and `DeliveredRun.model_validate`, are
-- `souk_provider_sdk`'s, and come as the record `Runtime`. A frame that is no JSON is `none`.
pub mod Offers
use agent_souk_server.Gateway.Wire.{equals_str}
use agent_souk_server.AgentSdk.Queries.{Link, send, resolve_query, fail_pending_queries}
use agent_souk_server.Base.{
  String, ◌<>◌, ◌==◌, ◌⊎◌, inl, inr, Bool, true, false, Option, none, some, List, [], ◌∷◌,
  if◌then◌else◌,
}
use agent_souk_server.Base.Json.{Json, bool, str, obj, Fields, end, field, get_field, get, hashable}

-- `validate` gives the text of its `ValidationError`; `cancel` is `none` where it raises.
pub record Runtime : Type 1 where
  pub State : Type 0
  pub Delivered : Type 0
  pub validate : Fields → String ⊎ Delivered
  pub deliver : Delivered → State → Bool × State
  pub cancel : Json → State → Option State

-- `frame.get(k, "")`
abbrev pub get_or_empty : String → Fields → Json
get_or_empty k fs = elim (get_field k fs) [ none ↦ str "" | some v ↦ v ]

abbrev pub ack_frame : Json → Bool → Fields → Fields
ack_frame run ok more =
    field "type" (str "ack") (field "runId" run (field "accepted" (bool ok) more))

-- `agent_name in self.agents`; `none` is the `TypeError` of a value that has no hash.
abbrev pub hosts : List String → Json → Option Bool
hosts [] (str s) = some false
hosts (name ∷ names) (str s) = if name == s then some true else hosts names (str s)
hosts names v = if hashable v then some false else none

abbrev pub refuse_reason : String → String
refuse_reason problem = "frame does not validate as a DeliveredRun: " <> problem

module _ (rt : Runtime) where
  pub record SoukProvider : Type 0 where
    pub link : Link
    pub runtime : rt.State

  -- The loop continues on, or was left by an exception.
  pub data Step : Type 0 where
    continues : SoukProvider → Step
    aborts : SoukProvider → Step

module _ {rt : Runtime} where
  abbrev pub put_out : Fields → SoukProvider rt → SoukProvider rt
  put_out frame p = record p { link = send frame p.link }

  unfoldable pub report_event : String → Json → SoukProvider rt → SoukProvider rt
  report_event run event p =
      put_out (field "type" (str "event") (field "runId" (str run) (field "event" event end))) p

  unfoldable pub finish_run : String → SoukProvider rt → SoukProvider rt
  finish_run run p = put_out (field "type" (str "finish") (field "runId" (str run) end)) p

  abbrev answered : Json → Bool × rt.State → SoukProvider rt → SoukProvider rt
  answered run (ok, runtime) p = put_out (ack_frame run ok end) (record p { runtime = runtime })

  abbrev pub offer_valid : Json → String ⊎ rt.Delivered → SoukProvider rt → SoukProvider rt
  offer_valid run (inl problem) p =
      put_out (ack_frame run false (field "reason" (str (refuse_reason problem)) end)) p
  offer_valid run (inr delivered) p = answered run (rt.deliver delivered p.runtime) p

  abbrev pub offer_named : Option Bool → Json → Fields → SoukProvider rt → Step rt
  offer_named none run frame p = aborts p
  offer_named (some false) run frame p = continues (put_out (ack_frame run false end) p)
  offer_named (some true) run frame p = continues (offer_valid run (rt.validate frame) p)

  -- `_offer`, with the names of `self.agents`.
  unfoldable pub offer : List String → Fields → SoukProvider rt → Step rt
  offer names frame p =
      offer_named (hosts names (get_or_empty "agentName" frame)) (get_or_empty "runId" frame) frame
        p

  abbrev cancelled_run : Option rt.State → SoukProvider rt → Step rt
  cancelled_run none p = aborts p
  cancelled_run (some runtime) p = continues (record p { runtime = runtime })

  unfoldable pub cancel : Json → SoukProvider rt → Step rt
  cancel run p = cancelled_run (rt.cancel run p.runtime) p

  abbrev resolved : Option Link → SoukProvider rt → Step rt
  resolved none p = aborts p
  resolved (some link) p = continues (record p { link = link })

  module _ (text : Json → String) (names : List String) where
    abbrev on_dict : Fields → SoukProvider rt → Step rt
    on_dict frame p =
        if equals_str (get "type" frame) "run"
        then offer names frame p
        else if equals_str (get "type" frame) "queryResult"
        then resolved (resolve_query text frame p.link) p
        else if equals_str (get "type" frame) "cancel"
        then cancel (get "runId" frame) p
        else continues p

    -- One frame of the loop: what is no JSON, or no dict, raises.
    unfoldable pub on_frame : Option Json → SoukProvider rt → Step rt
    on_frame (some (obj frame)) p = on_dict frame p
    on_frame _ p = aborts p

    abbrev closing : SoukProvider rt → SoukProvider rt
    closing p = record p { link = fail_pending_queries "souk connection closed" p.link }

    -- The loop over the frames of a connection, with its `finally`.
    unfoldable pub run_connection : List (Option Json) → SoukProvider rt → Step rt
    run_connection [] p = continues (closing p)
    run_connection (raw ∷ later) p = elim (on_frame raw p) [
      | continues q ↦ run_connection later q
      | aborts q ↦ aborts (closing q)
    ]
