-- ===== src/Gateway/Tests.antt =====
-- The gateway's theorems at concrete inputs, and short runs of its code.
use agent_souk_server.Gateway.Samples.{claims, python, souk, runs, text}
use agent_souk_server.Gateway.Wire.{Message, arrived, parse_frame, receive_hello, receive_frame}
use agent_souk_server.Gateway.Handshake.{hello_error, collect_connect_proof}
use agent_souk_server.Gateway.Handshake.Checks.{IsSound, hello_error-IsSound}
use agent_souk_server.Gateway.Query.{query_result, answer_query}
use agent_souk_server.Gateway.Query.Reads.{IsOwnRead, answer_query-owned}
use agent_souk_server.Gateway.Query.Silence.{IsSilent, answer_query-IsSilent}
use agent_souk_server.Gateway.Provider.{pending, SocketProvider, connect, deliver, ack}
use agent_souk_server.Gateway.Provider.Waiters.{run_at, future_at, is_live}
use agent_souk_server.Gateway.Provider.Steps.{offers, Reach, here, next}
use agent_souk_server.Gateway.Session.{
  Session, disconnects, raises, served, Outcome, clean_up, opened, on_message, serve,
  provider_socket,
}
use agent_souk_server.Gateway.Session.Opening.{IsAdmitted, provider_socket-IsAdmitted}
use agent_souk_server.Gateway.Session.Lifetime.{IsWelcomed, begins, connection_settles}
use agent_souk_server.Base.{ℕ, ◌≡◌, refl, ◌≢◌, ◌↔◌, ◌⊎◌, true, false, none, some, List, [], ◌∷◌}
use agent_souk_server.Base.Json.{
  pos, Json, null, int, str, arr, obj, nil, cons, Fields, end, field, get, is_int,
}

-- souk offers `run-7` while it attaches the provider.
abbrev offers_run : SocketProvider → SocketProvider
offers_run p = (deliver runs "run-7" p).1

offers_run-Reach : (p : SocketProvider) → p.waiters ≡ [] → Reach runs p (offers_run p)
offers_run-Reach p e = next here (offers "run-7" (λ i at. fresh i at))
  where
    fresh : (i : ℕ) → run_at i p.waiters ≡ some "run-7" → is_live (future_at i p.waiters) ≡ false
    fresh i at = rw e refl

abbrev start : Session souk
start = opened offers_run "key" null 0

waits : future_at 0 start.provider.waiters ≡ some pending
unfolding deliver connect
waits = refl

connection_settles_example :
    IsWelcomed start.provider
    × ((i : ℕ) → future_at i (clean_up start).provider.waiters ≢ some pending)
    × ((clean_up start).provider.acks ≡ [])
connection_settles_example =
    connection_settles runs python souk offers_run "key" null 0 offers_run-Reach begins

-- The hello and the proof are accepted, the ack of the offer is read, and the peer leaves.
abbrev messages : List Message
messages = text "ack-7" ∷ record { kind = "websocket.disconnect"; text = none } ∷ []

abbrev run : Outcome souk
run =
    provider_socket python souk offers_run (arrived (text "hello")) (arrived (text "proof"))
      messages 0

abbrev run_accepted : Session souk
run_accepted = record {
  provider = ack "run-7" true null (opened {core = souk} offers_run "key" null 1).provider;
  souk = 1;
  tasks = [];
}

run_serves : run.ending ≡ served (disconnects (clean_up (run_accepted)))
unfolding provider_socket receive_hello hello_error collect_connect_proof receive_frame serve
    on_message parse_frame ack connect
run_serves = refl

provider_socket-IsAdmitted_example :
    IsAdmitted python souk
      (arrived (text "hello"))
      (arrived (text "proof"))
      0
      run.direct
      (disconnects (clean_up (run_accepted)))
provider_socket-IsAdmitted_example =
    provider_socket-IsAdmitted python souk offers_run (arrived (text "hello"))
      (arrived (text "proof")) messages 0 (disconnects (clean_up (run_accepted))) run_serves

hello_error-IsSound_example : (hello_error python claims ≡ none) ↔ (
    IsSound "agentNames" claims
    × ((get "maxConcurrentRuns" claims ≡ null) ⊎ (is_int (get "maxConcurrentRuns" claims) ≡ true)))
hello_error-IsSound_example = hello_error-IsSound python claims

claims_pass : hello_error python claims ≡ none
unfolding hello_error
claims_pass = refl

abbrev question : Json → Fields
question params = field "type" (str "query") (
    field "queryId" (str "q1") (field "method" (str "thread_messages") (field "params" params end)))

abbrev ask_two : Fields
ask_two = question (obj (field "threadId" (str "t1") (field "limit" (int (pos 2)) end)))

abbrev last_two : Fields
last_two = query_result "q1" "result" (arr (cons (str "two") (cons (str "three") nil)))

answered : answer_query python souk "key" ask_two 0 0 ≡ some last_two
unfolding answer_query
answered = refl

answer_query-owned_example : IsOwnRead python souk "key" ask_two last_two 0 0
answer_query-owned_example =
    answer_query-owned python souk "key" ask_two last_two 0 0
      (arr (cons (str "two") (cons (str "three") nil))) refl answered

answer_query-IsSilent_example :
    (answer_query python souk "key" (question (str "t1")) 0 0 ≡ none)
    ↔ IsSilent souk.link_query_methods (question (str "t1"))
answer_query-IsSilent_example = answer_query-IsSilent python souk "key" (question (str "t1")) 0 0

-- With `params` that are a text, nothing is answered.
unanswered : answer_query python souk "key" (question (str "t1")) 0 0 ≡ none
unfolding answer_query
unanswered = refl

-- A frame whose type is a list ends the loop.
breaks_off : on_message python souk (text "odd") start ≡ raises start
unfolding on_message parse_frame
breaks_off = refl
