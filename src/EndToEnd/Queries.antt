-- ===== src/EndToEnd/Queries.antt =====
-- A question's way from the agent to the gateway and back.
use agent_souk_server.AgentSdk.Queries.{
  open_yet, result, Link, limit_json, query_frame, thread_messages, settle_at, outcome_of,
  resolve_query,
}
use agent_souk_server.AgentSdk.Queries.Laws.{settle_at_self}
use agent_souk_server.Gateway.Query.{
  last, Limit, unlimited, bad, at_most, limit_of, is_method, query_result, kept, is_owner,
  read_thread, answer_query,
}
use agent_souk_server.Gateway.Core.{Python, Souk}
use agent_souk_server.Base.{
  ℕ, zero, suc, String, eq_refl, ◌≡◌, refl, ap, ◌∙◌, ◌≢◌, true, Option, none, some, List, [], ◌∷◌,
  ◌++◌, if◌then◌else◌, ==_false, length, get_elem?, get_elem?-append_end,
}
use agent_souk_server.Base.Json.{Json, str, arr, nil, Fields, from_list, truthy}
use agent_souk_server.Base.Dict.{lookup-insert}

-- What the agent asked for: all messages, or as many of the latest.
abbrev pub asked_for : Option ℕ → List Json → List Json
asked_for none ms = ms
asked_for (some n) ms = last n ms

limit_is :
    (limit : Option ℕ) (ms : List Json)
    → limit ≢ some 0
    → (lim : Limit) × (limit_of (limit_json limit) ≡ lim)
      × (kept lim ms ≡ asked_for limit ms)
      × (lim ≢ bad)
limit_is none ms h = (unlimited, refl, refl, λ e. cc)
limit_is (some zero) ms h = absurd (h refl)
limit_is (some (suc n)) ms h = (at_most (suc n), refl, refl, λ e. cc)

items_of :
    (ms : List Json)
    → (if truthy (arr (from_list ms)) then arr (from_list ms) else arr nil) ≡ arr (from_list ms)
items_of [] = refl
items_of (m ∷ ms) = refl

module _ (py : Python) (core : Souk) (key : String) (text : Json → String) where
  read_thread-kept :
      (id thread : String) (lim : Limit) (s s' : core.State)
      → lim ≢ bad
      → is_owner key (core.get_thread thread s) ≡ true
      → read_thread py core key id thread lim s s'
        ≡ some (
            query_result id "result"
              (arr (from_list (kept lim (core.get_thread_messages thread s')))))
  read_thread-kept id thread bad s s' n o = absurd (n refl)
  read_thread-kept id thread unlimited s s' n o = rw o refl
  read_thread-kept id thread (at_most k) s s' n o = rw o refl

  -- A provider that asks for a thread of its own, with a limit that is positive if there is one, gets
  -- an answer, and that answer, brought back to the provider, gives its agent the thread's messages,
  -- in order: all of them, or the latest as many as the limit.
  pub query_round_trip :
      (id thread : String) (limit : Option ℕ) (l : Link) (s s' : core.State)
      → id ≢ ""
      → thread ≢ ""
      → limit ≢ some 0
      → is_method core.link_query_methods (str "thread_messages") ≡ some true
      → is_owner key (core.get_thread thread s) ≡ true
      → (answer : Fields) × (answer_query py core key (query_frame id thread limit) s s'
          ≡ some answer)
        × (m : Link) × (resolve_query text answer (thread_messages id thread limit l) ≡ some m)
        × (get_elem? m.futures (length l.futures)
            ≡ some
                (result (arr (from_list (asked_for limit (core.get_thread_messages thread s'))))))
  unfolding answer_query resolve_query thread_messages query_frame
  query_round_trip id thread limit l s s' hi ht hl hm ho =
      let ms : List Json = core.get_thread_messages thread s' in
      let (lim, e, k, n) = limit_is limit ms hl in
      let answer : Fields = query_result id "result" (arr (from_list (kept lim ms))) in
      let m : Link = record (thread_messages id thread limit l) {
        futures =
            settle_at (length l.futures) (outcome_of text answer) (l.futures ++ open_yet ∷ []);
      } in
      (
        answer,
        rw (==_false id "" hi, hm, ==_false thread "" ht, e)
            (read_thread-kept id thread lim s s' n ho),
        m,
        rw (lookup-insert id id (length l.futures) l.pending, eq_refl id) refl,
        settle_at_self (l.futures ++ open_yet ∷ []) (length l.futures)
              (get_elem?-append_end l.futures open_yet) (outcome_of text answer)
            ∙ ap (λ v. some (result v)) (items_of (kept lim ms))
            ∙ ap (λ x. some (result (arr (from_list x)))) k,
      )
