-- ===== src/AgentSdk/Provider/Offers.antt =====
-- What a provider answers to a `run` frame.
use text.Mathlib.Text.{starts_with}
use text.Mathlib.TextPositions.{starts_with-append}
use agent_souk_server.AgentSdk.Provider.{
  Runtime, get_or_empty, ack_frame, hosts, refuse_reason, SoukProvider, continues, aborts,
  offer_valid, offer_named, offer, on_frame,
}
use agent_souk_server.AgentSdk.Queries.{send}
use agent_souk_server.Gateway.Provider.{Answer, accepted, refusal, answer_of}
use agent_souk_server.Base.{
  String, ◌≡◌, refl, sym, ap, ◌≢◌, ◌⊎◌, inl, inr, Bool, true, false, Option, none, some, List,
  ==_false, subst,
}
use agent_souk_server.Base.Json.{Json, null, bool, str, obj, Fields, end, field, get_field, get}

-- The answer that a frame should get: a name that is not hosted is declined for now, a frame that
-- is no run is refused for good, and else the runtime decides.
pub decision : (rt : Runtime) → Option Bool → String ⊎ rt.Delivered → rt.State → Answer
decision rt (some true) (inr delivered) s = accepted (rt.deliver delivered s).0
decision rt (some true) (inl problem) s = refusal (refuse_reason problem)
decision rt hosted v s = accepted false

-- An ack that carries an answer for a run, the way `SocketProvider.ack` reads one.
pub record IsAckOf (run : Json) (a : Answer) (frame : Fields) : Type 0 where
  pub kind : get "type" frame ≡ str "ack"
  pub run_id : get "runId" frame ≡ run
  pub flag : Bool
  pub accepted_is : get_field "accepted" frame ≡ some (bool flag)
  pub answers : answer_of flag (get "reason" frame) ≡ a

aborts-ne-continues : {rt : Runtime} {p q : SoukProvider rt} → aborts p ≡ continues q → ⊥
aborts-ne-continues e = cc

continues_inj : {rt : Runtime} {p q : SoukProvider rt} → continues p ≡ continues q → p ≡ q
continues_inj e = cc

reason_filled : (problem : String) → refuse_reason problem ≢ ""
reason_filled problem e =
    false-ne-true (subst (λ x. starts_with x prefix ≡ true) e (starts_with-append prefix problem))
  where
    prefix : String
    prefix = "frame does not validate as a DeliveredRun: "

    false-ne-true : starts_with "" prefix ≡ true → ⊥
    false-ne-true h = cc

module _ {rt : Runtime} (text : Json → String) (names : List String) where
  -- A `run` frame that does not break the loop is answered by one ack, for the frame's own run, that
  -- carries the answer it should get; nothing else is sent, and no question is touched.
  pub on_frame-acks :
      (frame : Fields) (p q : SoukProvider rt)
      → get "type" frame ≡ str "run"
      → on_frame text names (some (obj frame)) p ≡ continues q
      → (reply : Fields) × (q.link ≡ send reply p.link)
        × IsAckOf
            (get_or_empty "runId" frame)
            (decision rt
              (hosts names (get_or_empty "agentName" frame))
              (rt.validate frame)
              p.runtime)
            reply
  unfolding on_frame offer decision
  on_frame-acks frame p q t h = named (hosts names (get_or_empty "agentName" frame)) (rw t at h)
    where
      run : Json
      run = get_or_empty "runId" frame

      valid :
          (v : String ⊎ rt.Delivered)
          → offer_valid run v p ≡ q
          → (reply : Fields) × (q.link ≡ send reply p.link)
            × IsAckOf run (decision rt (some true) v p.runtime) reply
      valid (inl problem) e = (
        ack_frame run false (field "reason" (str (refuse_reason problem)) end),
        ap (λ x. x.link) (sym e),
        record {
          kind = refl;
          run_id = refl;
          flag = false;
          accepted_is = refl;
          answers = rw (==_false (refuse_reason problem) "" (reason_filled problem)) refl;
        },
      )
      valid (inr delivered) e = (
        ack_frame run (rt.deliver delivered p.runtime).0 end,
        ap (λ x. x.link) (sym e),
        record {
          kind = refl;
          run_id = refl;
          flag = (rt.deliver delivered p.runtime).0;
          accepted_is = refl;
          answers = flagged (rt.deliver delivered p.runtime).0;
        },
      )
        where
          flagged : (ok : Bool) → answer_of ok null ≡ accepted ok
          flagged true = refl
          flagged false = refl

      named :
          (hosted : Option Bool)
          → offer_named hosted run frame p ≡ continues q
          → (reply : Fields) × (q.link ≡ send reply p.link)
            × IsAckOf run (decision rt hosted (rt.validate frame) p.runtime) reply
      named none e = absurd (aborts-ne-continues e)
      named (some false) e = (
        ack_frame run false end,
        ap (λ x. x.link) (sym (continues_inj e)),
        record { kind = refl; run_id = refl; flag = false; accepted_is = refl; answers = refl },
      )
      named (some true) e = valid (rt.validate frame) (continues_inj e)
