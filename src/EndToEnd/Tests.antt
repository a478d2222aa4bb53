-- ===== src/EndToEnd/Tests.antt =====
-- Both ends at concrete inputs.
use agent_souk_server.AgentSdk.Provider.{ack_frame as sdk_ack}
use agent_souk_server.Gateway.Kyok.Relay.{serve as relay}
use agent_souk_server.AgentSdk.Samples.{
  crypto, welcome, runtime, link, provider, run_frame, as_text,
}
use agent_souk_server.Gateway.Samples.{delta, python, souk, runs, text}
use agent_souk_server.AgentSdk.Handshake.{hello_frame, proof_frame, handshake}
use agent_souk_server.AgentSdk.Queries.{
  result, Link, send, query_frame, thread_messages, resolve_query,
}
use agent_souk_server.AgentSdk.Provider.{hosts, SoukProvider, continues, offer, on_frame}
use agent_souk_server.AgentSdk.Provider.Offers.{decision}
use agent_souk_server.Bridge.{finished}
use agent_souk_server.Gateway.Wire.{arrived, parse_frame}
use agent_souk_server.Gateway.Handshake.{
  names_of, hello_error, challenge_frame, collect_connect_proof,
}
use agent_souk_server.Gateway.Query.{answer_query}
use agent_souk_server.Gateway.Provider.{done, connect, deliver}
use agent_souk_server.Gateway.Provider.Waiters.{future_at}
use agent_souk_server.Gateway.Provider.Steps.{
  offers, here, next, IsConsistent, connect-IsConsistent, Reach-IsConsistent,
}
use agent_souk_server.Gateway.Session.{Session, goes, on_message}
use agent_souk_server.Gateway.Kyok.{chunk, done_mark, SocketLlmProvider, connect_llm, complete}
use agent_souk_server.Gateway.Kyok.Streams.{queue_at}
use agent_souk_server.EndToEnd.Offers.{offer_round_trip}
use agent_souk_server.EndToEnd.Queries.{query_round_trip}
use agent_souk_server.EndToEnd.Opening.{Agrees, handshake_round_trip}
use agent_souk_server.EndToEnd.Completions.{completion_round_trip}
use agent_souk_server.Base.{
  ℕ, String, ◌<>◌, eq_iff, eq_refl, ◌≡◌, refl, ◌≢◌, inr, true, none, some, [], ◌∷◌, ◌++◌, arith,
  get_elem?,
}
use agent_souk_server.Base.Json.{null, str, arr, obj, nil, cons, Fields, end, field, get}

live : ◌≢◌ {A = String} "websocket.receive" "websocket.disconnect"
live e = ground (arith, eq_iff "websocket.receive" "websocket.disconnect")

-- The gateway has offered `run-7`, and the provider takes it.
abbrev session : Session souk
session = record { provider = (deliver runs "run-7" (connect "key" null)).1; souk = 0; tasks = [] }

abbrev took : SoukProvider runtime
took = record { link = send (sdk_ack (str "run-7") true end) link; runtime = 1 }

takes : on_frame as_text ("scribe" ∷ []) (some (obj run_frame)) provider ≡ continues took
unfolding on_frame offer
takes = refl

session-IsConsistent : IsConsistent session.provider
unfolding connect
session-IsConsistent =
    Reach-IsConsistent runs (next here (offers "run-7" (λ i e. refl)))
      (connect-IsConsistent "key" null)

offer_round_trip_example :
    (t : Session souk) × (on_message python souk (text "ack-7") session ≡ goes t)
    × (future_at 0 t.provider.waiters
        ≡ some (done (decision runtime (hosts ("scribe" ∷ []) (str "scribe")) (inr run_frame) 0)))
    × ((j : ℕ) → 0 ≢ j → future_at j t.provider.waiters ≡ future_at j session.provider.waiters)
unfolding deliver connect parse_frame
offer_round_trip_example =
    offer_round_trip python souk as_text ("scribe" ∷ []) "run-7" run_frame
      (sdk_ack (str "run-7") true end) provider took 0 (text "ack-7") session refl refl takes refl
      live refl session-IsConsistent refl refl

query_round_trip_example :
    (answer : Fields) × (answer_query python souk "key" (query_frame "q1" "t1" (some 2)) 0 0
      ≡ some answer)
    × (m : Link) × (resolve_query as_text answer (thread_messages "q1" "t1" (some 2) link) ≡ some m)
    × (get_elem? m.futures 0 ≡ some (result (arr (cons (str "two") (cons (str "three") nil)))))
query_round_trip_example =
    query_round_trip python souk "key" as_text "q1" "t1" (some 2) link 0 0
      (λ e. ground (arith, eq_iff "q1" "")) (λ e. ground (arith, eq_iff "t1" "")) (λ e. cc) refl
      refl

abbrev first_challenge : Fields
first_challenge = challenge_frame python souk "challenge" "n1"

agrees : Agrees crypto souk "souk-key"
agrees = record { identity = refl; payload = λ a b. refl; verifies = λ p. eq_refl ("signed " <> p) }

abbrev hello : Fields
hello = hello_frame crypto ("scribe" ∷ []) none "n1"

handshake_round_trip_example :
    (hello_error python hello ≡ none)
    × ((handshake crypto
          (some "souk-key")
          ("scribe" ∷ [])
          none
          "n1"
          (some (obj first_challenge))
          (some (obj welcome))).sent
        ≡ hello ∷ proof_frame "sig" ∷ [])
    × ((collect_connect_proof python souk hello (arrived (text "proof")) 0).1
        ≡ inr ("challenge", "sig"))
    × (names_of (get "agentNames" hello) ≡ "scribe" ∷ [])
unfolding parse_frame
handshake_round_trip_example =
    handshake_round_trip python souk crypto "souk-key" "scribe" [] (some "souk-key") none "n1"
      (text "proof") (some (obj welcome)) 0 agrees (λ e. ground (arith, eq_iff "souk-key" "")) refl
      (λ e. ground (arith, eq_iff "n1" "")) (λ e. ground (arith, eq_iff "challenge" "")) live refl

abbrev in_flight : SocketLlmProvider
in_flight = complete "r1" (field "model" (str "small") end) (connect_llm "key")

completion_round_trip_example :
    ((relay python (text "chunk-r1" ∷ text "done-r1" ∷ []) in_flight).0 ≡ true)
    × (queue_at 0 (relay python (text "chunk-r1" ∷ text "done-r1" ∷ []) in_flight).1.streams
        ≡ queue_at 0 in_flight.streams ++ (chunk delta ∷ done_mark ∷ []))
unfolding complete connect_llm parse_frame
completion_round_trip_example =
    completion_round_trip python "r1" 0 (delta ∷ []) finished
      (text "chunk-r1" ∷ text "done-r1" ∷ []) in_flight (live, refl, (live, refl, tt)) refl refl
