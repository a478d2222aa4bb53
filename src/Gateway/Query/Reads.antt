-- ===== src/Gateway/Query/Reads.antt =====
-- A query is answered with messages of the provider's own threads only.
use agent_souk_server.Gateway.Wire.{error_frame}
use agent_souk_server.Gateway.Core.{Python, Souk}
use agent_souk_server.Gateway.Query.{
  last, Limit, unlimited, bad, at_most, limit_of, params_of, is_method, query_result, is_owner,
  answer_query, kept, read_thread, read_named, read_params, run_method, with_id,
}
use agent_souk_server.Base.{
  ℕ, zero, suc, ◌-◌, ◌≤◌, String, ◌==◌, eq_iff, ◌≡◌, refl, sym, ap, inl, inr, Bool, true, false,
  Option, none, some, List, [], ◌∷◌, ◌++◌, arith, Bool-cases, length, drop, length-drop, subst,
  some_inj, none-ne-some,
}
use agent_souk_server.Base.Json.{
  Json, str, arr, Fields, get_field, get, from_list, as_str, as_str-some,
}

-- `messages[-n:]` is the end of the messages, at most `n` of them, and all if there are no more.
pub last-suffix : {A : Type 0} (n : ℕ) (xs : List A) → (front : List A) × (front ++ last n xs ≡ xs)
last-suffix n xs = drop_front (length xs - n) xs
  where
    drop_front : {A : Type 0} (k : ℕ) (ys : List A) → (front : List A) × (front ++ drop k ys ≡ ys)
    drop_front zero ys = ([], refl)
    drop_front (suc k) [] = ([], refl)
    drop_front (suc k) (y ∷ ys) = let (front, e) = drop_front k ys in (y ∷ front, ap (◌∷◌ y) e)

pub length-last : {A : Type 0} (n : ℕ) (xs : List A) → length (last n xs) ≤ n
length-last n xs = omega (arith, length-drop (length xs - n) xs)

-- A failure frame holds no result.
error_has_no_result :
    (id : String) (why : String) (reply : Fields) (v : Json)
    → ◌≡◌ {A = Option Fields} (some (query_result id "error" (str why))) (some reply)
    → get_field "result" reply ≡ some v
    → ⊥
error_has_no_result id why reply v h r =
    absent (subst (λ f. get_field "result" f ≡ some v) (sym (some_inj h)) r)
  where
    absent : get_field "result" (query_result id "error" (str why)) ≡ some v → ⊥
    absent q = cc

unkeyed :
    (reply : Fields) (v : Json)
    → ◌≡◌ {A = Option Fields} (some (error_frame "query needs a queryId")) (some reply)
    → get_field "result" reply ≡ some v
    → ⊥
unkeyed reply v h r = absent (subst (λ f. get_field "result" f ≡ some v) (sym (some_inj h)) r)
  where
    absent : get_field "result" (error_frame "query needs a queryId") ≡ some v → ⊥
    absent q = cc

is_owner-eq : (key : String) (o : Option String) → is_owner key o ≡ true → o ≡ some key
is_owner-eq key none h = cc
is_owner-eq key (some owner) h = ap some ((eq_iff owner key).0 h)

module _ (py : Python) (core : Souk) (key : String) where
  -- A reply with a result reads a thread of this provider's, and holds the end of its messages that
  -- the limit allows.
  pub record IsRead (id thread : String) (limit : Limit) (reply : Fields) (s s' : core.State)
      : Type 0 where
    pub messages : List Json
    pub front : List Json
    pub answers : reply ≡ query_result id "result" (arr (from_list messages))
    pub owned : core.get_thread thread s ≡ some key
    pub suffix : front ++ messages ≡ core.get_thread_messages thread s'
    pub bounded : (n : ℕ) → limit ≡ at_most n → length messages ≤ n

  kept-IsRead :
      (id thread : String) (limit : Limit) (reply : Fields) (s s' : core.State)
      → reply
        ≡ query_result id "result"
            (arr (from_list (kept limit (core.get_thread_messages thread s'))))
      → core.get_thread thread s ≡ some key
      → IsRead id thread limit reply s s'
  kept-IsRead id thread unlimited reply s s' e o = record {
    messages = core.get_thread_messages thread s';
    front = [];
    answers = e;
    owned = o;
    suffix = refl;
    bounded = λ n q. cc;
  }
  kept-IsRead id thread bad reply s s' e o = record {
    messages = core.get_thread_messages thread s';
    front = [];
    answers = e;
    owned = o;
    suffix = refl;
    bounded = λ n q. cc;
  }
  kept-IsRead id thread (at_most m) reply s s' e o =
      let (front, rest) = last-suffix m (core.get_thread_messages thread s') in
      record {
        messages = last m (core.get_thread_messages thread s');
        front = front;
        answers = e;
        owned = o;
        suffix = rest;
        bounded = λ n q. ground (arith, length-last m (core.get_thread_messages thread s'));
      }

  thread-IsRead :
      (id thread : String) (limit : Limit) (reply : Fields) (s s' : core.State) (v : Json)
      → read_thread py core key id thread limit s s' ≡ some reply
      → get_field "result" reply ≡ some v
      → IsRead id thread limit reply s s'
  thread-IsRead id thread bad reply s s' v h r = absurd (error_has_no_result id _ reply v h r)
  thread-IsRead id thread limit reply s s' v h r =
      elim (Bool-cases (is_owner key (core.get_thread thread s))) [
        | inl e ↦
            kept-IsRead id thread limit reply s s' (sym (some_inj (rw e at h)))
              (is_owner-eq key (core.get_thread thread s) e)
        | inr e ↦ absurd (error_has_no_result id _ reply v (rw e at h) r)
      ]

  -- What the frame asked for, when it is answered with a result.
  pub record IsOwnRead (parsed reply : Fields) (s s' : core.State) : Type 0 where
    pub id : String
    pub thread : String
    pub params : Fields
    pub asked : get "queryId" parsed ≡ str id
    pub sent : params_of (get "params" parsed) ≡ some params
    pub named : get "threadId" params ≡ str thread
    pub read : IsRead id thread (limit_of (get "limit" params)) reply s s'

  module _ (parsed reply : Fields) (s s' : core.State) (v : Json)
      (r : get_field "result" reply ≡ some v) where
    params_read :
        (id : String) (o : Option Fields)
        → get "queryId" parsed ≡ str id
        → params_of (get "params" parsed) ≡ o
        → read_params py core key id o s s' ≡ some reply
        → IsOwnRead parsed reply s s'
    params_read id none q e h = absurd (none-ne-some h)
    params_read id (some params) q e h = text_read (as_str (get "threadId" params)) refl h
      where
        named_read :
            (thread : String)
            → as_str (get "threadId" params) ≡ some thread
            → read_thread py core key id thread (limit_of (get "limit" params)) s s' ≡ some reply
            → IsOwnRead parsed reply s s'
        named_read thread t h' = record {
          id = id;
          thread = thread;
          params = params;
          asked = q;
          sent = e;
          named = as_str-some (get "threadId" params) thread t;
          read = thread-IsRead id thread (limit_of (get "limit" params)) reply s s' v h' r;
        }

        text_read :
            (o : Option String)
            → as_str (get "threadId" params) ≡ o
            → read_named py core key id (limit_of (get "limit" params)) o s s' ≡ some reply
            → IsOwnRead parsed reply s s'
        text_read none t h' = absurd (error_has_no_result id _ reply v h' r)
        text_read (some thread) t h' = elim (Bool-cases (thread == "")) [
          | inl b ↦ absurd (error_has_no_result id _ reply v (rw b at h') r)
          | inr b ↦ named_read thread t (rw b at h')
        ]

    method_read :
        (id : String) (m : Option Bool)
        → get "queryId" parsed ≡ str id
        → run_method py core key id (get "method" parsed) m parsed s s' ≡ some reply
        → IsOwnRead parsed reply s s'
    method_read id none q h = absurd (none-ne-some h)
    method_read id (some false) q h = absurd (error_has_no_result id _ reply v h r)
    method_read id (some true) q h = params_read id (params_of (get "params" parsed)) q refl h

    id_read :
        (o : Option String)
        → as_str (get "queryId" parsed) ≡ o
        → with_id py core key o parsed s s' ≡ some reply
        → IsOwnRead parsed reply s s'
    id_read none q h = absurd (unkeyed reply v h r)
    id_read (some id) q h = elim (Bool-cases (id == "")) [
      | inl b ↦ absurd (unkeyed reply v (rw b at h) r)
      | inr b ↦
          method_read id (is_method core.link_query_methods (get "method" parsed))
            (as_str-some (get "queryId" parsed) id q) (rw b at h)
    ]

    -- Whenever a query is answered with a result, souk says at that moment that the thread's agent
    -- belongs to this provider, and the result is the end of that thread's messages, no longer than
    -- the frame's limit.
    pub answer_query-owned :
        answer_query py core key parsed s s' ≡ some reply → IsOwnRead parsed reply s s'
    unfolding answer_query
    answer_query-owned h = id_read (as_str (get "queryId" parsed)) refl h
