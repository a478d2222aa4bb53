-- ===== src/Delegation/Tests.antt =====
-- The theorems on addresses at a small roster.
use agent_souk_server.Client.{Row}
use agent_souk_server.Delegation.{SubAgentConfig, Address, address_of}
use agent_souk_server.Delegation.Calls.{
  Call, running, progress_of, on_update, follow_call, answer_of_call,
}
use agent_souk_server.Delegation.Calls.Reports.{any_tells, event_of, follow_call-flags}
use agent_souk_server.Base.{eq_iff, ◌≡◌, refl, ◌≢◌, true, false, ◌||◌, none, [], ◌∷◌, arith}
use agent_souk_server.Base.Json.{str, arr, obj, nil, cons, Fields, end, field}

abbrev scribe : Row
scribe = record {
  provider_key = "k1";
  fingerprint = "fp-k1";
  name = "scribe";
  description = "";
  online = true;
  provider_name = none;
}

abbrev sub : SubAgentConfig
sub = record { name = "scribe"; agent = ""; provider = "fp-k1"; a2a_url = "" }

abbrev fresh : Call
fresh = record { final_text = ""; failed = false; pending = false; progress = []; contexts = [] }

abbrev place : Address
place = address_of "url" scribe

-- An update that carries text, and one that pauses the call.
abbrev said : Fields
said =
    field "artifactUpdate"
      (obj (
        field "artifact"
          (obj (field "parts" (arr (cons (obj (field "text" (str "hi") end)) nil)) end)) end))
      end

abbrev paused : Fields
paused =
    field "statusUpdate"
      (obj (
        field "contextId" (str "c1")
          (field "status" (obj (field "state" (str "TASK_STATE_INPUT_REQUIRED") end)) end)))
      end

abbrev after : Call
after = record {
  final_text = "hi";
  failed = false;
  pending = true;
  progress = progress_of sub place said ∷ progress_of sub place paused ∷ [];
  contexts = ("scribe", str "c1") ∷ [];
}

goes_through : follow_call sub place (said ∷ paused ∷ []) fresh ≡ running after
unfolding follow_call on_update
goes_through = refl

follow_call-flags_example :
    (after.failed ≡ (fresh.failed || any_tells "TASK_STATE_FAILED" (said ∷ paused ∷ [])))
    × (after.pending
        ≡ (fresh.pending || any_tells "TASK_STATE_INPUT_REQUIRED" (said ∷ paused ∷ [])))
    × (after.progress ≡ event_of sub place said ∷ event_of sub place paused ∷ [])
follow_call-flags_example =
    follow_call-flags sub place (said ∷ paused ∷ []) fresh after goes_through

not_silent : answer_of_call sub after ≢ "hi"
unfolding answer_of_call
not_silent e = ground (arith, eq_iff (answer_of_call sub after) "hi")
