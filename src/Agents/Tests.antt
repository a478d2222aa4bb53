-- ===== src/Agents/Tests.antt =====
-- The theorems on the agents at small inputs.
use agent_souk_server.Agents.Samples.{
  said_by_user, said_by_agent, a_run, hermes, loads, whole_reply, broken_reply, explain, scribe,
  scribe_place, told_endpoint, run_of, no_digits,
}
use agent_souk_server.Agents.Events.{
  run_started, text_message_start, text_message_content, text_message_end, run_finished, before,
  over, Trace,
}
use agent_souk_server.Agents.Relay.Speech.{run_stream-script}
use agent_souk_server.Agents.Relay.Protocol.{run_stream-Trace}
use agent_souk_server.Agents.Echo.Laws.{run_stream-echoes}
use agent_souk_server.Agents.Merge.{Move, put_event, drain_ends, next_item, fresh, run_moves}
use agent_souk_server.Agents.Merge.Order.{run_moves-ends}
use agent_souk_server.Agents.Model.{openai_chat, resolve_model}
use agent_souk_server.Agents.Threads.{CallIn, call_of, call_in_run, play}
use agent_souk_server.Agents.Threads.Continuity.{call_in_run-continues}
use agent_souk_server.Agents.Market.{Problem, request_failed, Words}
use agent_souk_server.Delegation.Calls.{on_update, follow_call, answer_of_call}
use agent_souk_server.Delegation.Tool.{call_sub_agent}
use agent_souk_server.Delegation.Tool.Continuity.{context_sent}
use agent_souk_server.Base.{
  String, ◌==◌, eq_iff, ◌≡◌, refl, sym, ◌∙◌, ◌≢◌, ◌⊎◌, inl, true, false, Option, none, some, List,
  [], ◌∷◌, arith, if◌then◌else◌,
}
use agent_souk_server.Base.Json.{Json, str, Fields}
use agent_souk_server.Agents.Relay as relay
use agent_souk_server.Agents.Echo as echo

run_stream-script_example :
    relay.run_stream explain loads whole_reply hermes a_run
    ≡ run_started "t1" "r1"
      ∷ text_message_start "r1-reply"
      ∷ text_message_content "r1-reply" (str "hi")
      ∷ text_message_content "r1-reply" (str "there")
      ∷ text_message_end "r1-reply"
      ∷ run_finished "t1" "r1"
      ∷ []
run_stream-script_example = run_stream-script explain loads whole_reply hermes a_run

run_stream-Trace_example :
    Trace "t1" "r1" before (relay.run_stream explain loads broken_reply hermes a_run) over
run_stream-Trace_example = run_stream-Trace explain loads broken_reply hermes a_run

abbrev text_of : Json → String
text_of (str s) = s
text_of v = "…"

run_stream-echoes_example :
    (echo.run_stream text_of a_run
      ≡ run_started "t1" "r1"
        ∷ text_message_start "r1-reply"
        ∷ text_message_content "r1-reply" (str "echo: salt?")
        ∷ text_message_end "r1-reply"
        ∷ run_finished "t1" "r1"
        ∷ [])
    × Trace "t1" "r1" before (echo.run_stream text_of a_run) over
run_stream-echoes_example =
    run_stream-echoes text_of a_run (said_by_agent ∷ []) (said_by_agent ∷ []) said_by_user refl refl
      (refl, tt)

-- One event is read at once, one waits, the task ends, and a late one is never yielded.
abbrev moves : List Move
moves =
    put_event (str "a")
    ∷ next_item
    ∷ put_event (str "b")
    ∷ next_item
    ∷ drain_ends
    ∷ put_event (str "late")
    ∷ next_item
    ∷ next_item
    ∷ next_item
    ∷ []

run_moves-ends_example :
    ((run_moves moves fresh).left ≡ true)
    × ((run_moves moves fresh).yielded ≡ str "a" ∷ str "b" ∷ [])
run_moves-ends_example = run_moves-ends moves (omega arith)

abbrev environ : String → Option String
environ name =
    if name == "LLM_BASE_URL"
    then some "http://llm"
    else if name == "LLM_API_KEY"
    then some "secret"
    else none

-- The prefix is taken off twice, so a name that repeats it loses its front.
resolve_model_twice :
    resolve_model environ "custom-openai:custom-openai-mini"
    ≡ some (openai_chat "-mini" "http://llm" "secret")
unfolding resolve_model
resolve_model_twice = refl

texts_differ : (s t : String) → (s == t) ≡ false → s ≢ t
texts_differ s t h e = true-ne-false (sym ((eq_iff s t).1 e) ∙ h)
  where
    true-ne-false : true ≡ false → ⊥
    true-ne-false k = cc

abbrev elsewhere : CallIn
elsewhere = call_of (run_of "t2" "r2") scribe scribe_place "req2" "hello"

answered :
    (call_in_run no_digits loads told_endpoint
      (call_of (run_of "t1" "r1") scribe scribe_place "req1" "write")
      []).answer
    ≡ some "(no response from scribe)"
unfolding call_in_run call_sub_agent follow_call on_update answer_of_call
answered = refl

call_in_run-continues_example :
    context_sent
      (call_in_run no_digits loads told_endpoint
        (call_of (run_of "t1" "r3") scribe scribe_place "req3" "and then?")
        (play no_digits loads told_endpoint
          (call_of (run_of "t1" "r1") scribe scribe_place "req1" "write" ∷ elsewhere ∷ [])
          [])).sent
    ≡ str "ctx-1"
call_in_run-continues_example =
    call_in_run-continues no_digits loads told_endpoint (run_of "t1" "r1") (run_of "t1" "r3") scribe
      scribe_place scribe_place "req1" "req3" "write" "and then?" "(no response from scribe)"
      (str "ctx-1") (elsewhere ∷ []) [] refl (texts_differ "t2" "t1" refl, tt) answered refl

abbrev no_card : String → Problem ⊎ Fields
no_card url = inl (request_failed "offline")

abbrev words : Words
words = record {
  text = text_of;
  dumps = text_of;
  dumps_indented = text_of;
  decimal = no_digits;
  explain = λ e. "offline";
}
