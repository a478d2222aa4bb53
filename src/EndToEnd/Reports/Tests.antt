-- ===== src/EndToEnd/Reports/Tests.antt =====
-- The theorem on reports at two runs, of which souk refuses the end of one.
use agent_souk_server.Gateway.Samples.{souk as souk_server}
use agent_souk_server.AgentSdk.Samples.{provider}
use agent_souk_server.AgentSdk.Provider.{report_event, finish_run}
use agent_souk_server.Gateway.Wire.{parse_frame}
use agent_souk_server.Gateway.Core.{Python, Souk}
use agent_souk_server.Gateway.Provider.{connect}
use agent_souk_server.Gateway.Session.{Session, goes, serve}
use agent_souk_server.Gateway.Samples.{text}
use agent_souk_server.EndToEnd.Reports.{Report, event_of, end_of, reports_round_trip}
use agent_souk_server.Base.{
  suc, String, ◌==◌, eq_iff, ◌≡◌, refl, ◌≢◌, true, false, Option, none, some, List, [], ◌∷◌, arith,
  if◌then◌else◌,
}
use agent_souk_server.Base.Json.{Json, null, str, obj, end, field}

abbrev reads : String → Option Json
reads t =
    if t == "event"
    then some
        (obj (field "type" (str "event") (field "runId" (str "r1") (field "event" (str "hi") end))))
    else if t == "finish"
    then some (obj (field "type" (str "finish") (field "runId" (str "r2") end)))
    else none

abbrev reader : Python
reader = record { loads = reads; repr = λ v. "?" }

-- A souk that counts the events it is told, and refuses every finish.
abbrev counting : Souk
counting = record souk_server {
  report_event = λ run event key n. (true, suc n);
  finish_run = λ run key n. (false, n);
}

abbrev session : Session counting
session = record { provider = connect "key" null; souk = 0; tasks = [] }

abbrev made : List Report
made = event_of "r1" (str "hi") ∷ end_of "r2" ∷ event_of "r1" (str "hi") ∷ []

live : (t : String) → (text t).kind ≢ "websocket.disconnect"
live t e = ground (arith, eq_iff "websocket.receive" "websocket.disconnect")

reports_round_trip_example :
    (t : Session counting) × (serve reader counting
        (text "event" ∷ text "finish" ∷ text "event" ∷ [])
        session
      ≡ goes t)
    × (t.souk ≡ 2)
    × (t.provider.public_key ≡ "key")
    × (t.provider.waiters ≡ [])
unfolding report_event finish_run connect parse_frame
reports_round_trip_example =
    reports_round_trip reader counting made provider
      (text "event" ∷ text "finish" ∷ text "event" ∷ []) session refl
      (live "event", refl, (live "finish", refl, (live "event", refl, tt)))
