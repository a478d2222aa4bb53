-- ===== src/Gateway/Query/Silence.antt =====
-- Which queries of a provider are never answered.
use agent_souk_server.Gateway.Core.{Python, Souk}
use agent_souk_server.Gateway.Query.{
  Limit, bad, limit_of, params_of, is_member, is_method, is_owner, read_thread, answer_query,
  read_named, read_params, run_method, with_id,
}
use agent_souk_server.Base.{
  String, ◌==◌, eq_iff, ◌≡◌, refl, sym, ◌≢◌, ◌↔◌, ◌⊎◌, inl, inr, Bool, true, false, Option, none,
  some, List, [], ◌∷◌, arith, if◌then◌else◌, Bool-cases, ==_false, some_inj, none-ne-some,
}
use agent_souk_server.Base.Json.{
  Json, null, bool, int, float, str, arr, obj, Fields, end, get, as_str, truthy, hashable,
  as_str-some,
}

abbrev pub Listed : String → List String → Type 0
Listed s [] = ⊥
Listed s (x ∷ xs) = (s ≡ x) ⊎ Listed s xs

-- A value that is no dict and counts as true, so that `or {}` leaves it, without a `get`.
abbrev pub IsOdd : Json → Type 0
IsOdd (obj fs) = ⊥
IsOdd v = truthy v ≡ true

-- A known method, asked with such parameters.
abbrev pub IsUnreadable : List String → Fields → Type 0
IsUnreadable methods parsed =
    (m : String) × (get "method" parsed ≡ str m) × Listed m methods × IsOdd (get "params" parsed)

-- A query that has an id and ends the task that should answer it.
pub record IsSilent (methods : List String) (parsed : Fields) : Type 0 where
  pub id : String
  pub named : get "queryId" parsed ≡ str id
  pub filled : id ≢ ""
  pub breaks : (hashable (get "method" parsed) ≡ false) ⊎ IsUnreadable methods parsed

is_member-Listed : (s : String) (xs : List String) → is_member s xs ≡ true → Listed s xs
is_member-Listed s [] h = cc
is_member-Listed s (x ∷ xs) h = elim (Bool-cases (x == s)) [
  | inl e ↦ inl (sym ((eq_iff x s).0 e))
  | inr e ↦ inr (is_member-Listed s xs (rw e at h))
]

Listed-is_member : (s : String) (xs : List String) → Listed s xs → is_member s xs ≡ true
Listed-is_member s [] h = absurd h
Listed-is_member s (x ∷ xs) (inl e) = rw ((eq_iff x s).1 (sym e)) refl
Listed-is_member s (x ∷ xs) (inr e) = ground (arith, Listed-is_member s xs e)

is_method-true :
    (methods : List String) (v : Json)
    → is_method methods v ≡ some true
    → (m : String) × (v ≡ str m) × Listed m methods
is_method-true methods (str s) h = (s, refl, is_member-Listed s methods (some_inj h))
is_method-true methods null h = cc
is_method-true methods (bool b) h = cc
is_method-true methods (int i) h = cc
is_method-true methods (float x) h = cc
is_method-true methods (arr xs) h = cc
is_method-true methods (obj fs) h = cc

is_method-none :
    (methods : List String) (v : Json) → (is_method methods v ≡ none) ↔ (hashable v ≡ false)
is_method-none methods (arr xs) = (λ e. refl, λ e. refl)
is_method-none methods (obj xs) = (λ e. refl, λ e. refl)
is_method-none methods v = (λ e. cc, λ e. cc)

unless : (b : Bool) → (◌≡◌ {A = Option Fields} (if b then none else some end) none) ↔ (b ≡ true)
unless true = (λ e. refl, λ e. refl)
unless false = (λ e. cc, λ e. cc)

params_of-none : (v : Json) → (params_of v ≡ none) ↔ IsOdd v
params_of-none (obj fs) = (λ e. cc, λ e. absurd e)
params_of-none null = unless false
params_of-none (bool b) = unless b
params_of-none (int i) = unless (truthy (int i))
params_of-none (float x) = unless (truthy (float x))
params_of-none (str s) = unless (truthy (str s))
params_of-none (arr xs) = unless (truthy (arr xs))

module _ (py : Python) (core : Souk) (key : String) where
  read_thread-answers :
      (id thread : String) (limit : Limit) (s s' : core.State)
      → read_thread py core key id thread limit s s' ≢ none
  read_thread-answers id thread bad s s' h = cc
  read_thread-answers id thread limit s s' h =
      elim (Bool-cases (is_owner key (core.get_thread thread s))) [
        | inl e ↦ none-ne-some (sym (rw e at h))
        | inr e ↦ none-ne-some (sym (rw e at h))
      ]

  read_named-answers :
      (id : String) (limit : Limit) (o : Option String) (s s' : core.State)
      → read_named py core key id limit o s s' ≢ none
  read_named-answers id limit none s s' h = cc
  read_named-answers id limit (some thread) s s' h = elim (Bool-cases (thread == "")) [
    | inl e ↦ none-ne-some (sym (rw e at h))
    | inr e ↦ read_thread-answers id thread limit s s' (rw e at h)
  ]

  module _ (parsed : Fields) (s s' : core.State) where
    read_params-breaks :
        (id : String) (o : Option Fields)
        → params_of (get "params" parsed) ≡ o
        → read_params py core key id o s s' ≡ none
        → IsOdd (get "params" parsed)
    read_params-breaks id none e h = (params_of-none (get "params" parsed)).0 e
    read_params-breaks id (some params) e h = absurd (
        read_named-answers id (limit_of (get "limit" params)) (as_str (get "threadId" params)) s s'
          h)

    run_method-breaks :
        (id : String) (m : Option Bool)
        → is_method core.link_query_methods (get "method" parsed) ≡ m
        → run_method py core key id (get "method" parsed) m parsed s s' ≡ none
        → (hashable (get "method" parsed) ≡ false) ⊎ IsUnreadable core.link_query_methods parsed
    run_method-breaks id none e h =
        inl ((is_method-none core.link_query_methods (get "method" parsed)).0 e)
    run_method-breaks id (some false) e h = cc
    run_method-breaks id (some true) e h =
        let (m, named, listed) = is_method-true core.link_query_methods (get "method" parsed) e in
        inr (m, named, listed, read_params-breaks id (params_of (get "params" parsed)) refl h)

    with_id-IsSilent :
        (o : Option String)
        → as_str (get "queryId" parsed) ≡ o
        → with_id py core key o parsed s s' ≡ none
        → IsSilent core.link_query_methods parsed
    with_id-IsSilent none e h = cc
    with_id-IsSilent (some id) e h = elim (Bool-cases (id == "")) [
      | inl q ↦ absurd (none-ne-some (sym (rw q at h)))
      | inr q ↦ record {
        id = id;
        named = as_str-some (get "queryId" parsed) id e;
        filled = λ r. ground (arith, eq_iff id "");
        breaks =
            run_method-breaks id (is_method core.link_query_methods (get "method" parsed)) refl
              (rw q at h);
      }
    ]

    IsSilent-none :
        IsSilent core.link_query_methods parsed → answer_query py core key parsed s s' ≡ none
    unfolding answer_query
    IsSilent-none h = elim h.breaks [
      | inl e ↦
          rw
            (
              h.named,
              ==_false h.id "" h.filled,
              (is_method-none core.link_query_methods (get "method" parsed)).1 e,
            )
            refl
      | inr (m, named, listed, odd) ↦
          rw
            (
              h.named,
              ==_false h.id "" h.filled,
              named,
              Listed-is_member m core.link_query_methods listed,
              (params_of-none (get "params" parsed)).1 odd,
            )
            refl
    ]

    -- A query is left without any answer exactly if it has an id, a text that is not empty, and
    -- either its method is a list or a dict, or it is a known method and its params are neither a
    -- dict nor a value that counts as false. Every other query is answered, whatever it holds and
    -- whatever souk has stored.
    pub answer_query-IsSilent :
        (answer_query py core key parsed s s' ≡ none) ↔ IsSilent core.link_query_methods parsed
    unfolding answer_query
    answer_query-IsSilent = (with_id-IsSilent (as_str (get "queryId" parsed)) refl, IsSilent-none)
