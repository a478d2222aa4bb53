-- ===== src/AgentSdk/Tests.antt =====
-- The SDK's theorems at concrete inputs.
use agent_souk_server.AgentSdk.Queries.Waiting.{
  asks, hears, Reaches, here, next, unasked, loses-all_settled,
}
use agent_souk_server.AgentSdk.Samples.{
  crypto, challenge, welcome, runtime, link, provider, run_frame, as_text,
}
use agent_souk_server.AgentSdk.Handshake.{proves, is_signed, check_souk_identity, handshake}
use agent_souk_server.AgentSdk.Trust.{pinned_souk, Sends, handshake-Sends}
use agent_souk_server.AgentSdk.Queries.{
  open_yet, result, Link, send, thread_messages, resolve_query, fail_pending_queries,
}
use agent_souk_server.AgentSdk.Provider.{ack_frame, SoukProvider, continues, offer, on_frame}
use agent_souk_server.Base.{◌≡◌, refl, ◌≢◌, true, Option, none, some, [], ◌∷◌, get_elem?}
use agent_souk_server.Base.Json.{Json, str, arr, obj, nil, cons, Fields, end, field, get}

proved :
    check_souk_identity crypto (some "souk-key") challenge "n1" "n2"
    ≡ proves (some (str "souk-key"))
unfolding check_souk_identity
proved = refl

pinned_souk_example :
    (◌≡◌ {A = Option Json} (some (str "souk-key")) (some (str "souk-key")))
    × (get "soukPublicKey" challenge ≡ str "souk-key")
    × (is_signed crypto
          (str "souk-key")
          (get "signature" challenge)
          (crypto.souk_connect_payload "n2" "n1")
        ≡ true)
pinned_souk_example =
    pinned_souk crypto "souk-key" challenge "n1" "n2" (some (str "souk-key")) proved

handshake-Sends_example :
    Sends crypto (some "souk-key") ("scribe" ∷ []) none "n1" (some (obj challenge)) (
      handshake crypto
        (some "souk-key")
        ("scribe" ∷ [])
        none
        "n1"
        (some (obj challenge))
        (some (obj welcome)))
handshake-Sends_example =
    handshake-Sends crypto (some "souk-key") ("scribe" ∷ []) none "n1" (some (obj challenge))
      (some (obj welcome))

-- The handshake with this souk ends well.
well :
    (handshake crypto
      (some "souk-key")
      ("scribe" ∷ [])
      none
      "n1"
      (some (obj challenge))
      (some (obj welcome))).failed
    ≡ none
unfolding handshake check_souk_identity
well = refl

-- One question is out.
abbrev asking : Link
asking = thread_messages "q1" "t1" (some 2) link

abbrev result_frame : Fields
result_frame =
    field "type" (str "queryResult")
      (field "queryId" (str "q1") (field "result" (arr (cons (str "hi") nil)) end))

-- A second question is out when the answer to the first one comes.
abbrev asking_twice : Link
asking_twice = thread_messages "q2" "t1" none asking

abbrev answered_one : Link
answered_one = record asking_twice { futures = result (arr (cons (str "hi") nil)) ∷ open_yet ∷ [] }

reached : Reaches as_text unasked answered_one
unfolding thread_messages resolve_query
reached =
    next (next (next here (asks "q1" "t1" (some 2) unasked refl)) (asks "q2" "t1" none asking refl))
      (hears result_frame asking_twice answered_one refl)

loses-all_settled_example :
    get_elem? (fail_pending_queries "gone" answered_one).futures 1 ≢ some open_yet
loses-all_settled_example = loses-all_settled as_text answered_one "gone" 1 reached

abbrev taken : SoukProvider runtime
taken = record { link = send (ack_frame (str "run-7") true end) link; runtime = 1 }

takes : on_frame as_text ("scribe" ∷ []) (some (obj run_frame)) provider ≡ continues taken
unfolding on_frame offer
takes = refl
