-- ===== src/Gateway/Kyok/Tests.antt =====
-- The theorems of `/ws/kyok` and of the shared frame code at concrete inputs.
use agent_souk_server.Gateway.Samples.{claims, delta, parses, python, text}
use agent_souk_server.Gateway.Wire.{parse_frame}
use agent_souk_server.Gateway.Handshake.{llm_hello_error}
use agent_souk_server.Gateway.Kyok.{
  Failure, chunk, SocketLlmProvider, connect_llm, complete, feed, fail_pending, fails,
  answer_stream,
}
use agent_souk_server.Gateway.Kyok.Streams.{queue_at}
use agent_souk_server.Gateway.Kyok.Routing.{completes_request, Reach, here, next}
use agent_souk_server.Gateway.Kyok.Loss.{fail_pending-fails}
use agent_souk_server.Gateway.Kyok.Relay.{goes, on_message}
use agent_souk_server.Gateway.Kyok.Serving.{Fed, on_message-isolated}
use agent_souk_server.Base.{◌≡◌, refl, false, Option, none, some, []}
use agent_souk_server.Base.Json.{pos, int, str, arr, nil, cons, Fields, end, field}

abbrev envelope : Fields
envelope = field "model" (str "small") end

-- One completion is in flight.
abbrev asked : SocketLlmProvider
asked = complete "r1" envelope (connect_llm "key")

asked_Reach : Reach (connect_llm "key") asked
unfolding connect_llm
asked_Reach = next here (completes_request "r1" envelope (λ i e. cc))

-- `validate` takes every chunk as it is.
abbrev validate : Fields → Option Fields
validate body = some body

fail_pending-fails_example :
    ((why : Failure) × ((answer_stream validate false (queue_at 0 (fail_pending asked).streams)).1
        ≡ fails why))
    × ((fail_pending asked).answers ≡ [])
unfolding complete connect_llm
fail_pending-fails_example = fail_pending-fails validate false "key" "r1" 0 asked_Reach refl tt

-- The first chunk has come.
abbrev chunked : SocketLlmProvider
chunked = (feed "r1" (chunk delta) asked).1

chunk_turn : on_message python (text "chunk-r1") asked ≡ goes chunked
unfolding on_message parse_frame feed complete connect_llm
chunk_turn = refl

on_message-isolated_example : Fed (parse_frame parses (text "chunk-r1")) asked chunked 0
on_message-isolated_example =
    on_message-isolated python "key" asked asked_Reach (text "chunk-r1") chunked chunk_turn 0

abbrev llm_claims : Fields
llm_claims =
    field "version" (int (pos 3)) (field "modelNames" (arr (cons (str "small") nil)) claims)

llm_claims_pass : llm_hello_error python llm_claims ≡ none
unfolding llm_hello_error
llm_claims_pass = refl
