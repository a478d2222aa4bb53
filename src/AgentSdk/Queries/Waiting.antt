-- ===== src/AgentSdk/Queries/Waiting.antt =====
-- No agent is left waiting: what any interleaving of questions, answers, wake-ups and lost connections
-- keeps of the link.
use agent_souk_server.AgentSdk.Queries.{
  Future, open_yet, result, exception, dropped, Link, send, thread_messages, Wake, settle_at,
  thread_messages_rest, outcome_of, resolve_at, resolve_id, resolve_query, fail_each,
  fail_pending_queries,
}
use agent_souk_server.AgentSdk.Queries.Laws.{
  settle_at-other, settle_at-settles, exception-ne, fail_each-settles,
}
use agent_souk_server.Base.{
  ℕ, String, ◌==◌, eq_refl, ◌≡◌, sym, ap, ◌∙◌, ◌≢◌, ◌⊎◌, inl, inr, false, Option, none, some, List,
  [], ◌∷◌, ◌++◌, arith, ltb, if◌then◌else◌, Bool-cases, ==_false, ltb→lt, length, get_elem?,
  length-append, get_elem?-append_left, lt-length_of_get_elem?, subst, some_inj, none-ne-some,
}
use agent_souk_server.Base.Json.{
  Json, null, bool, int, float, str, arr, obj, Fields, get, is_null, hashable,
}
use agent_souk_server.Base.Dict.{Dict, lookup, lookup-insert, lookup-erase}

-- One step of the link: an agent asks under an id that is not in use, a frame settles a question, an
-- agent wakes up and takes its question back, a connection is lost, or a frame is put out.
pub data Moves (text : Json → String) : Link → Link → Type 0 where
  asks :
      (id thread : String) (limit : Option ℕ) (l : Link)
      → lookup id l.pending ≡ none
      → Moves text l (thread_messages id thread limit l)
  hears : (frame : Fields) (l m : Link) → resolve_query text frame l ≡ some m → Moves text l m
  wakes :
      (id thread : String) (i : ℕ) (wake : Wake) (l : Link)
      → (lookup id l.pending ≡ some i) ⊎ (lookup id l.pending ≡ none)
      → Moves text l (thread_messages_rest id i thread wake l).1
  loses : (why : String) (l : Link) → Moves text l (fail_pending_queries why l)
  puts : (frame : Fields) (l : Link) → Moves text l (send frame l)

pub data Reaches (text : Json → String) (l : Link) : Link → Type 0 where
  here : Reaches text l l
  next : {m n : Link} → Reaches text l m → Moves text m n → Reaches text l n

abbrev pub unasked : Link
unasked = record { outbound = []; pending = []; futures = [] }

-- Every question that is open is pending, so that it can still be answered or failed.
pub record IsTracked (l : Link) : Type 0 where
  pub asked :
      (i : ℕ)
      → get_elem? l.futures i ≡ some open_yet
      → (id : String) × (lookup id l.pending ≡ some i)

-- Settling reopens nothing.
settle_at-open :
    (fs : List Future) (i j : ℕ) (f : Future)
    → f ≢ open_yet
    → get_elem? (settle_at i f fs) j ≡ some open_yet
    → (i ≢ j) × (get_elem? fs j ≡ some open_yet)
settle_at-open fs i j f n h = (apart, sym (settle_at-other fs i j f apart) ∙ h)
  where
    apart : i ≢ j
    apart e =
        settle_at-settles fs i f n
          (subst (λ x. get_elem? (settle_at i f fs) x ≡ some open_yet) (sym e) h)

-- Two ids with different values differ.
ids_differ :
    {v : Option ℕ} (id its_id : String) (d : Dict ℕ) (j : ℕ)
    → lookup id d ≡ v
    → v ≢ some j
    → lookup its_id d ≡ some j
    → (id == its_id) ≡ false
ids_differ id its_id d j e n h =
    ==_false id its_id (λ same. n (sym e ∙ ap (λ x. lookup x d) same ∙ h))

asks-IsTracked :
    (id thread : String) (limit : Option ℕ) (l : Link)
    → lookup id l.pending ≡ none
    → IsTracked l
    → IsTracked (thread_messages id thread limit l)
unfolding thread_messages
asks-IsTracked id thread limit l fresh t = record {
  asked = λ i h. elim (Bool-cases (ltb i (length l.futures))) [
    | inl e ↦
        let (its_id, p) = t.asked i (
          sym (get_elem?-append_left l.futures (open_yet ∷ []) i (ltb→lt i (length l.futures) e))
          ∙ h) in
        (
          its_id,
          lookup-insert id its_id (length l.futures) l.pending
              ∙ rw (ids_differ id its_id l.pending i fresh (λ k. none-ne-some k) p) p,
        )
    | inr e ↦ (
      id,
      lookup-insert id id (length l.futures) l.pending ∙ rw (eq_refl id) (ap some (last_one i h e)),
    )
  ];
}
  where
    last_one :
        (i : ℕ)
        → get_elem? (l.futures ++ open_yet ∷ []) i ≡ some open_yet
        → ltb i (length l.futures) ≡ false
        → length l.futures ≡ i
    last_one i h e = ground (
      arith,
      lt-length_of_get_elem? (l.futures ++ open_yet ∷ []) i open_yet h,
      length-append l.futures (open_yet ∷ []),
    )

outcome_of-ne : (text : Json → String) (frame : Fields) → outcome_of text frame ≢ open_yet
outcome_of-ne text frame e = elim (Bool-cases (is_null (get "error" frame))) [
  | inl n ↦ result-ne (rw n at e)
  | inr n ↦ exception-ne (rw n at e)
]
  where
    result-ne : {v : Json} → result v ≢ open_yet
    result-ne h = cc

hears-IsTracked :
    (text : Json → String) (frame : Fields) (l m : Link)
    → resolve_query text frame l ≡ some m
    → IsTracked l
    → IsTracked m
unfolding resolve_query
hears-IsTracked text frame l m e t = heard (get "queryId" frame) e
  where
    settled :
        (i : ℕ) → IsTracked (record l { futures = settle_at i (outcome_of text frame) l.futures })
    settled i = record {
      asked = λ j h.
          t.asked j
            (settle_at-open l.futures i j (outcome_of text frame) (outcome_of-ne text frame) h).1;
    }

    resolved_to : (o : Option ℕ) → IsTracked (resolve_at text o (outcome_of text frame) l)
    resolved_to none = t
    resolved_to (some i) = settled i

    unhashed : (v : Json) → (if hashable v then some l else none) ≡ some m → IsTracked m
    unhashed v k = elim (Bool-cases (hashable v)) [
      | inl h ↦ subst IsTracked (some_inj (rw h at k)) t
      | inr h ↦ absurd (none-ne-some (rw h at k))
    ]

    heard : (v : Json) → resolve_id text v (outcome_of text frame) l ≡ some m → IsTracked m
    heard (str id) k = subst IsTracked (some_inj k) (resolved_to (lookup id l.pending))
    heard null k = unhashed null k
    heard (bool b) k = unhashed (bool b) k
    heard (int i) k = unhashed (int i) k
    heard (float x) k = unhashed (float x) k
    heard (arr xs) k = unhashed (arr xs) k
    heard (obj fs) k = unhashed (obj fs) k

wakes-IsTracked :
    (id thread : String) (i : ℕ) (wake : Wake) (l : Link)
    → (lookup id l.pending ≡ some i) ⊎ (lookup id l.pending ≡ none)
    → IsTracked l
    → IsTracked (thread_messages_rest id i thread wake l).1
unfolding thread_messages_rest
wakes-IsTracked id thread i wake l own t = record {
  asked = λ j h.
      let (apart, was_open) = settle_at-open l.futures i j dropped (λ e. cc) h in
      let (its_id, p) = t.asked j was_open in
      (its_id, lookup-erase id its_id l.pending ∙ rw (differs own j its_id apart p) p);
}
  where
    differs :
        (lookup id l.pending ≡ some i) ⊎ (lookup id l.pending ≡ none)
        → (j : ℕ) (its_id : String) → i ≢ j
        → lookup its_id l.pending ≡ some j
        → (id == its_id) ≡ false
    differs (inl e) j its_id apart p =
        ids_differ id its_id l.pending j e (λ k. apart (some_inj k)) p
    differs (inr e) j its_id apart p = ids_differ id its_id l.pending j e (λ k. none-ne-some k) p

fail_each-open :
    (why : String) (d : Dict ℕ) (fs : List Future) (j : ℕ)
    → get_elem? (fail_each why d fs) j ≡ some open_yet
    → get_elem? fs j ≡ some open_yet
fail_each-open why [] fs j h = h
fail_each-open why ((id, i) ∷ d) fs j h =
    (settle_at-open fs i j (exception why) exception-ne
      (fail_each-open why d (settle_at i (exception why) fs) j h)).1

loses-settled :
    (why : String) (l : Link) (i : ℕ)
    → IsTracked l
    → get_elem? (fail_pending_queries why l).futures i ≢ some open_yet
unfolding fail_pending_queries
loses-settled why l i t h =
    let open_before = fail_each-open why l.pending l.futures i h in
    let (id, p) = t.asked i open_before in fail_each-settles why l.pending l.futures id i p h

Moves-IsTracked : {text : Json → String} {l m : Link} → Moves text l m → IsTracked l → IsTracked m
Moves-IsTracked (asks id thread limit l fresh) t = asks-IsTracked id thread limit l fresh t
Moves-IsTracked {text} (hears frame l m e) t = hears-IsTracked text frame l m e t
Moves-IsTracked (wakes id thread i wake l own) t = wakes-IsTracked id thread i wake l own t
Moves-IsTracked (loses why l) t = record { asked = λ i h. absurd (loses-settled why l i t h) }
Moves-IsTracked (puts frame l) t = record { asked = t.asked }

Reaches-IsTracked :
    {text : Json → String} {l m : Link} → Reaches text l m → IsTracked l → IsTracked m
Reaches-IsTracked here t = t
Reaches-IsTracked (next r s) t = Moves-IsTracked s (Reaches-IsTracked r t)

-- Whatever agents asked, under ids that were not in use, whatever frames came and agents woke up, and
-- however often a connection was lost, in any order, since the provider was made: once a connection is
-- lost, no question is open, so that every agent that waits is woken, with an answer or with a failure.
pub loses-all_settled :
    (text : Json → String) (l : Link) (why : String) (i : ℕ)
    → Reaches text unasked l
    → get_elem? (fail_pending_queries why l).futures i ≢ some open_yet
loses-all_settled text l why i r =
    loses-settled why l i (Reaches-IsTracked r (record { asked = λ j h. absurd (none-ne-some h) }))
