-- ===== src/Gateway/Session/Lifetime.antt =====
-- A served connection over its whole life: the loop reads messages while souk's broker delivers,
-- cancels and waits on the same provider, in any order.
use agent_souk_server.Gateway.Wire.{Message, error_frame, parse_frame}
use agent_souk_server.Gateway.Core.{Python, Souk}
use agent_souk_server.Gateway.Provider.{
  Answer, pending, SocketProvider, RunContract, connect, enqueue, start_offer, deliver,
  deliver_rest, answer_of, settle, ack, cancel, fail_pending,
}
use agent_souk_server.Gateway.Provider.Waiters.{future_at}
use agent_souk_server.Gateway.Provider.Steps.{
  Step, offers, acks, cancels, queues, wakes, expires, aborts, fails, Reach, here, next,
}
use agent_souk_server.Gateway.Provider.Answers.{disconnect_settles}
use agent_souk_server.Gateway.Session.{
  Kind, ack_type, event_type, finish_type, query_type, unknown_type, unhashable, kind_of,
  accepted_of, ack_frame, run_error, Session, Flow, goes, disconnects, raises, told, clean_up,
  opened, on_message, acked, on_kind, on_parsed,
}
use agent_souk_server.Base.{
  ℕ, String, ◌<>◌, ◌==◌, ◌≡◌, refl, ◌≢◌, ◌⊎◌, inl, inr, Bool, true, false, Option, none, some, List,
  [], ◌∷◌, ◌++◌, Bool-cases, subst,
}
use agent_souk_server.Base.Json.{Json, str, Fields, end, field, get_field, get, merge}
use agent_souk_server.Base.Dict.{lookup}

abbrev pub welcome_frame : Fields
welcome_frame = field "type" (str "welcome") end

-- The provider's frames begin with the welcome.
abbrev pub IsWelcomed : SocketProvider → Type 0
IsWelcomed p = (rest : List Fields) × (p.outbound ≡ welcome_frame ∷ rest)

enqueue-IsWelcomed :
    (frame : Fields) (p : SocketProvider) → IsWelcomed p → IsWelcomed (enqueue frame p)
enqueue-IsWelcomed frame p (rest, e) = (rest ++ frame ∷ [], rw e)

settle-IsWelcomed :
    (o : Option ℕ) (a : Answer) (p : SocketProvider) → IsWelcomed p → IsWelcomed (settle o a p)
settle-IsWelcomed none a p h = h
settle-IsWelcomed (some i) a p h = h

module _ (c : RunContract) where
  offer-IsWelcomed :
      (run : String) (o : String ⊎ Fields) (p : SocketProvider)
      → IsWelcomed p
      → IsWelcomed (start_offer c run o p).1
  offer-IsWelcomed run (inl e) p h = h
  offer-IsWelcomed run (inr fs) p (rest, e) =
      (rest ++ merge (field "type" (str "run") end) fs ∷ [], rw e)

  Step-IsWelcomed : {p q : SocketProvider} → Step c p q → IsWelcomed p → IsWelcomed q
  unfolding deliver ack cancel deliver_rest fail_pending
  Step-IsWelcomed {p} (offers run fresh) h =
      offer-IsWelcomed (c.run_id run) (c.from_claimed run) p h
  Step-IsWelcomed {p} (acks run ok reason) h =
      settle-IsWelcomed (lookup run p.acks) (answer_of ok reason) p h
  Step-IsWelcomed {p} (cancels run) h = enqueue-IsWelcomed _ p h
  Step-IsWelcomed {p} (queues frame) h = enqueue-IsWelcomed frame p h
  Step-IsWelcomed (wakes i run a at f) h = h
  Step-IsWelcomed (expires i run at f) h = h
  Step-IsWelcomed (aborts i run at f) h = h
  Step-IsWelcomed fails h = h

  Reach-IsWelcomed : {p q : SocketProvider} → Reach c p q → IsWelcomed p → IsWelcomed q
  Reach-IsWelcomed here h = h
  Reach-IsWelcomed (next r s) h = Step-IsWelcomed s (Reach-IsWelcomed r h)

  Reach-trans : {p q r : SocketProvider} → Reach c p q → Reach c q r → Reach c p r
  Reach-trans a here = a
  Reach-trans a (next b s) = next (Reach-trans a b) s

  module _ (py : Python) (core : Souk) where
    -- The loop reads a message, or souk uses the provider, or the watcher or a query queues a frame.
    pub data Serves (s : Session core) : Session core → Type 0 where
      reads : (m : Message) {t : Session core} → on_message py core m s ≡ goes t → Serves s t
      brokers :
          {q : SocketProvider} (souk : core.State) (tasks : List Fields)
          → Step c s.provider q
          → Serves s (record s { provider = q; souk = souk; tasks = tasks })

    pub data Lives (s : Session core) : Session core → Type 0 where
      begins : Lives s s
      goes_on : {t u : Session core} → Lives s t → Serves t u → Lives s u

    -- However a turn of the loop ends, the provider has moved by its own steps.
    abbrev FlowReach : Session core → Flow core → Type 0
    FlowReach s (goes t) = Reach c s.provider t.provider
    FlowReach s (disconnects t) = Reach c s.provider t.provider
    FlowReach s (raises t) = Reach c s.provider t.provider

    ack_Reach :
        (run : Json) (ok : Bool) (reason : Json) (s : Session core)
        → FlowReach s (acked s (ack_frame run ok reason s.provider))
    ack_Reach (str run) ok reason s = next here (acks run ok reason)
    ack_Reach run ok reason s = here

    told_Reach :
        (run : Json) (why : String) (r : Bool × core.State) (s : Session core)
        → FlowReach s (told run why r s)
    told_Reach run why (true, souk) s = here
    told_Reach run why (false, souk) s = next here (queues (run_error run why))

    on_kind_Reach :
        (k : Kind) (parsed : Fields) (s : Session core) → FlowReach s (on_kind py core k parsed s)
    on_kind_Reach unhashable parsed s = here
    on_kind_Reach unknown_type parsed s =
        next here (queues (error_frame ("unexpected frame " <> py.repr (get "type" parsed))))
    on_kind_Reach ack_type parsed s =
        ack_Reach (get "runId" parsed) (accepted_of (get_field "accepted" parsed))
          (get "reason" parsed) s
    on_kind_Reach event_type parsed s = told_Reach (get "runId" parsed) "event refused" _ s
    on_kind_Reach finish_type parsed s = told_Reach (get "runId" parsed) "finish refused" _ s
    on_kind_Reach query_type parsed s = here

    on_parsed_Reach : (o : Option Fields) (s : Session core) → FlowReach s (on_parsed py core o s)
    on_parsed_Reach none s = next here (queues (error_frame "unparseable frame"))
    on_parsed_Reach (some parsed) s = on_kind_Reach (kind_of (get "type" parsed)) parsed s

    on_message_Reach : (m : Message) (s : Session core) → FlowReach s (on_message py core m s)
    unfolding on_message
    on_message_Reach m s = elim (Bool-cases (m.kind == "websocket.disconnect")) [
      | inl e ↦ rw e here
      | inr e ↦ rw e (on_parsed_Reach (parse_frame py.loads m) s)
    ]

    Serves-Reach : {s t : Session core} → Serves s t → Reach c s.provider t.provider
    Serves-Reach {s} (reads m e) = subst (FlowReach s) e (on_message_Reach m s)
    Serves-Reach (brokers souk tasks st) = next here st

    pub Lives-Reach : {s t : Session core} → Lives s t → Reach c s.provider t.provider
    Lives-Reach begins = here
    Lives-Reach (goes_on l st) = Reach-trans (Lives-Reach l) (Serves-Reach st)

    -- At every moment of a served connection its frames begin with the welcome, also when souk uses
    -- the provider, as to offer it runs, before the attach has returned; and were the connection to end
    -- there, the clean-up leaves no offer waiting for an answer and none to be acked. It is assumed
    -- that souk, in the attach and later, does with the provider what a broker does, in any order:
    -- offers, cancellations and waits, and no offer of a run while an earlier one of that run is out.
    pub connection_settles :
        (meanwhile : SocketProvider → SocketProvider) (key : String) (max_runs : Json)
        (souk : core.State)
        → ((p : SocketProvider) → p.waiters ≡ [] → Reach c p (meanwhile p))
        → {s : Session core} → Lives (opened meanwhile key max_runs souk) s
        → IsWelcomed s.provider
          × ((i : ℕ) → future_at i (clean_up s).provider.waiters ≢ some pending)
          × ((clean_up s).provider.acks ≡ [])
    unfolding clean_up connect
    connection_settles meanwhile key max_runs souk brokered l =
        let w = enqueue welcome_frame (connect key max_runs) in
        let lived = Reach-trans (brokered w refl) (Lives-Reach l) in
        let (settled, empty) =
          disconnect_settles c key max_runs
            (Reach-trans (next here (queues welcome_frame)) lived) in
        (Reach-IsWelcomed lived ([], refl), settled, empty)
