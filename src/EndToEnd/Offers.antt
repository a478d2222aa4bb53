-- ===== src/EndToEnd/Offers.antt =====
-- An offer's way from the gateway to the provider and back.
use agent_souk_server.AgentSdk.Provider.{
  Runtime, get_or_empty, hosts, SoukProvider, continues, on_frame,
}
use agent_souk_server.AgentSdk.Provider.Offers.{decision, on_frame-acks}
use agent_souk_server.AgentSdk.Queries.{send}
use agent_souk_server.Gateway.Wire.{Message, parse_frame}
use agent_souk_server.Gateway.Core.{Python, Souk}
use agent_souk_server.Gateway.Provider.{pending, done, ack}
use agent_souk_server.Gateway.Provider.Waiters.{run_at, future_at}
use agent_souk_server.Gateway.Provider.Steps.{IsConsistent}
use agent_souk_server.Gateway.Provider.Answers.{ack-settles}
use agent_souk_server.Gateway.Session.{Session, goes, on_message}
use agent_souk_server.Base.{
  ℕ, String, ◌≡◌, refl, sym, ap, ◌∙◌, ◌≢◌, some, List, [], ◌∷◌, ◌++◌, ==_false,
}
use agent_souk_server.Base.Json.{Json, str, obj, Fields, get_field, get}

snoc_inj : (xs : List Fields) {a b : Fields} → xs ++ a ∷ [] ≡ xs ++ b ∷ [] → a ≡ b
snoc_inj [] e = cc
snoc_inj (x ∷ xs) e = snoc_inj xs (tail_eq e)
  where
    tail_eq : {ys zs : List Fields} → x ∷ ys ≡ x ∷ zs → ys ≡ zs
    tail_eq h = cc

module _ (py : Python) (core : Souk) {rt : Runtime} (text : Json → String)
    (names : List String) where
  -- The provider answers a `run` frame with a text `runId`, and the frame that it sends arrives at the
  -- gateway as it was sent, in a consistent state where an offer waits for that run: then that offer
  -- gets the answer that the provider should give, and no other offer changes.
  pub offer_round_trip :
      (run : String) (frame sent_ack : Fields) (p q : SoukProvider rt) (i : ℕ) (m : Message)
      (s : Session core)
      → get "type" frame ≡ str "run"
      → get_field "runId" frame ≡ some (str run)
      → on_frame text names (some (obj frame)) p ≡ continues q
      → q.link ≡ send sent_ack p.link
      → m.kind ≢ "websocket.disconnect"
      → parse_frame py.loads m ≡ some sent_ack
      → IsConsistent s.provider
      → run_at i s.provider.waiters ≡ some run
      → future_at i s.provider.waiters ≡ some pending
      → (t : Session core) × (on_message py core m s ≡ goes t)
        × (future_at i t.provider.waiters
            ≡ some (
                done (
                  decision rt
                    (hosts names (get_or_empty "agentName" frame))
                    (rt.validate frame)
                    p.runtime)))
        × ((j : ℕ) → i ≢ j → future_at j t.provider.waiters ≡ future_at j s.provider.waiters)
  unfolding on_message
  offer_round_trip run frame sent_ack p q i m s kind id runs sent live parsed fine at waits =
      let (r, e, a) = on_frame-acks text names frame p q kind runs in
      let same : sent_ack ≡ r = snoc_inj p.link.outbound (ap (λ l. l.outbound) (sym sent ∙ e)) in
      let for_run : get "runId" r ≡ str run = rw (get_or_empty, id) at (a.run_id) in
      let (told, others, quiet) =
        ack-settles s.provider i run a.flag (get "reason" r) fine at waits in
      rw
        (
          ==_false m.kind "websocket.disconnect" live,
          parsed ∙ ap some same,
          a.kind,
          for_run,
          a.accepted_is,
        )
        (
          record s { provider = ack run a.flag (get "reason" r) s.provider },
          refl,
          told ∙ ap (λ x. some (done x)) a.answers,
          others,
        )
