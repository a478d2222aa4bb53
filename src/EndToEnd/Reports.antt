-- ===== src/EndToEnd/Reports.antt =====
-- What a run reports, from `report_event` and `finish_run` of the provider to souk.
mod Tests
use agent_souk_server.AgentSdk.Provider.{Runtime, SoukProvider, report_event, finish_run}
use agent_souk_server.Gateway.Wire.{Message, parse_frame}
use agent_souk_server.Gateway.Core.{Python, Souk}
use agent_souk_server.Gateway.Session.{
  run_error, Session, Flow, goes, reply, told, and_then, on_message, serve,
}
use agent_souk_server.Base.{
  String, ◌≡◌, refl, sym, ap, ◌∙◌, ◌≢◌, Bool, true, false, some, List, [], ◌∷◌, ◌++◌, map, ==_false,
  subst, append-nil, append_assoc,
}
use agent_souk_server.Base.Json.{Json, str, Fields, end, field}

-- A report of a run: an event, or its end.
pub data Report : Type 0 where
  event_of : String → Json → Report
  end_of : String → Report

module _ {rt : Runtime} where
  abbrev pub report_one : Report → SoukProvider rt → SoukProvider rt
  report_one (event_of run event) p = report_event run event p
  report_one (end_of run) p = finish_run run p

  -- The reports of a provider's runs, as they come.
  abbrev pub report_all : List Report → SoukProvider rt → SoukProvider rt
  report_all [] p = p
  report_all (r ∷ rs) p = report_all rs (report_one r p)

abbrev frame_of : Report → Fields
frame_of (event_of run event) =
    field "type" (str "event") (field "runId" (str run) (field "event" event end))
frame_of (end_of run) = field "type" (str "finish") (field "runId" (str run) end)

report_all-outbound :
    {rt : Runtime} (rs : List Report) (p : SoukProvider rt)
    → (report_all rs p).link.outbound ≡ p.link.outbound ++ map frame_of rs
unfolding report_event finish_run
report_all-outbound [] p = sym (append-nil p.link.outbound)
report_all-outbound (event_of run event ∷ rs) p =
    report_all-outbound rs (report_event run event p)
    ∙ append_assoc p.link.outbound (frame_of (event_of run event) ∷ []) (map frame_of rs)
report_all-outbound (end_of run ∷ rs) p =
    report_all-outbound rs (finish_run run p)
    ∙ append_assoc p.link.outbound (frame_of (end_of run) ∷ []) (map frame_of rs)

module _ (py : Python) (core : Souk) where
  -- The messages are these frames, one by one, on a socket that is still there.
  abbrev pub Arrive : List Message → List Fields → Type 0
  Arrive [] [] = Unit
  Arrive (m ∷ ms) (f ∷ fs) =
      (m.kind ≢ "websocket.disconnect") × (parse_frame py.loads m ≡ some f) × Arrive ms fs
  Arrive _ _ = ⊥

  -- souk, told one report, and then several, by the provider with a key.
  abbrev pub told_one : String → Report → core.State → core.State
  told_one key (event_of run event) souk = (core.report_event (str run) event key souk).1
  told_one key (end_of run) souk = (core.finish_run (str run) key souk).1

  abbrev pub told_all : String → List Report → core.State → core.State
  told_all key [] souk = souk
  told_all key (r ∷ rs) souk = told_all key rs (told_one key r souk)

  -- The session goes on with souk in a state, and is otherwise as it was.
  record GoesTo (souk : core.State) (s : Session core) (flow : Flow core) : Type 0 where
    session : Session core
    goes_on : flow ≡ goes session
    souk_is : session.souk ≡ souk
    key_is : session.provider.public_key ≡ s.provider.public_key
    waiters_are : session.provider.waiters ≡ s.provider.waiters

  told-GoesTo :
      (run : Json) (why : String) (answer : Bool × core.State) (s : Session core)
      → GoesTo answer.1 s (told run why answer s)
  told-GoesTo run why (true, souk) s = record {
    session = record s { souk = souk };
    goes_on = refl;
    souk_is = refl;
    key_is = refl;
    waiters_are = refl;
  }
  told-GoesTo run why (false, souk) s = record {
    session = reply (run_error run why) (record s { souk = souk });
    goes_on = refl;
    souk_is = refl;
    key_is = refl;
    waiters_are = refl;
  }

  on_message-GoesTo :
      (r : Report) (m : Message) (s : Session core)
      → m.kind ≢ "websocket.disconnect"
      → parse_frame py.loads m ≡ some (frame_of r)
      → GoesTo (told_one s.provider.public_key r s.souk) s (on_message py core m s)
  unfolding on_message
  on_message-GoesTo (event_of run event) m s live parsed =
      rw (==_false m.kind "websocket.disconnect" live, parsed)
        (told-GoesTo (str run) "event refused"
          (core.report_event (str run) event s.provider.public_key s.souk) s)
  on_message-GoesTo (end_of run) m s live parsed =
      rw (==_false m.kind "websocket.disconnect" live, parsed)
        (told-GoesTo (str run) "finish refused"
          (core.finish_run (str run) s.provider.public_key s.souk) s)

  serve-GoesTo :
      (rs : List Report) (ms : List Message) (s : Session core)
      → Arrive ms (map frame_of rs)
      → GoesTo (told_all s.provider.public_key rs s.souk) s (serve py core ms s)
  unfolding serve
  serve-GoesTo [] [] s h = record {
    session = s;
    goes_on = refl;
    souk_is = refl;
    key_is = refl;
    waiters_are = refl;
  }
  serve-GoesTo [] (m ∷ ms) s h = absurd h
  serve-GoesTo (r ∷ rs) [] s h = absurd h
  serve-GoesTo (r ∷ rs) (m ∷ ms) s (live, parsed, later) =
      let one = on_message-GoesTo r m s live parsed in
      let rest = serve-GoesTo rs ms one.session later in
      record {
        session = rest.session;
        goes_on = ap (λ flow. and_then flow (serve py core ms)) one.goes_on ∙ rest.goes_on;
        souk_is = rest.souk_is ∙ (λ i. told_all (one.key_is i) rs (one.souk_is i));
        key_is = rest.key_is ∙ one.key_is;
        waiters_are = rest.waiters_are ∙ one.waiters_are;
      }

  -- A provider whose queue was empty reports events and ends of its runs, in any order and of any
  -- runs, and the frames that it put out arrive at the gateway one by one: the session goes on, and
  -- souk has been told each report once, in the order in which the provider made them, under the key
  -- that the session was opened with, whether souk refused some of them or not; the offers that wait
  -- are untouched.
  pub reports_round_trip :
      {rt : Runtime} (rs : List Report) (p : SoukProvider rt) (ms : List Message) (s : Session core)
      → p.link.outbound ≡ []
      → Arrive ms (report_all rs p).link.outbound
      → (t : Session core) × (serve py core ms s ≡ goes t)
        × (t.souk ≡ told_all s.provider.public_key rs s.souk)
        × (t.provider.public_key ≡ s.provider.public_key)
        × (t.provider.waiters ≡ s.provider.waiters)
  reports_round_trip rs p ms s empty h =
      let sent = report_all-outbound rs p ∙ ap (λ l. l ++ map frame_of rs) empty in
      let all_there = serve-GoesTo rs ms s (subst (Arrive ms) sent h) in
      (
        all_there.session, all_there.goes_on, all_there.souk_is, all_there.key_is,
        all_there.waiters_are,
      )
