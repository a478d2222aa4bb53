-- ===== src/History/Merged.antt =====
-- What `with_thread_history` gives an agent to read.
use agent_souk_server.History.{
  is_seen, seen_of, keep_new, tail_of, own_messages, with_tail, with_own, with_seen, with_answer,
  with_thread_history, add_id,
}
use agent_souk_server.Base.{
  zero, suc, String, ◌==◌, eq_iff, eq_refl, ◌≡◌, refl, sym, ap, ◌∙◌, ◌≢◌, ◌⊎◌, inl, inr, Bool, true,
  false, not, ◌&&◌, ◌||◌, Option, none, some, List, [], ◌∷◌, ◌++◌, map, arith, if◌then◌else◌,
  Bool-cases, ==_false, select, All,
}
use agent_souk_server.Base.Json.{
  ℤ, pos, negsuc, Json, null, bool, int, float, str, arr, obj, Items, Fields, end, field, get, put,
  to_list, from_list, truthy,
}

get-put_self : (k : String) (v : Json) (fs : Fields) → get k (put k v fs) ≡ v
get-put_self k v end = rw (eq_refl k) refl
get-put_self k v (field j w fs) = ground (arith, get-put_self k v fs)

get-put_other : (k j : String) (v : Json) (fs : Fields) → k ≢ j → get j (put k v fs) ≡ get j fs
get-put_other k j v end h = rw (==_false k j h) refl
get-put_other k j v (field i w fs) h =
    ground (arith, get-put_other k j v fs h, eq_iff i k, eq_iff i j, ==_false k j h)

-- The ids that souk's messages have: the texts that are not empty.
abbrev add_text : Json → List String → List String
add_text (str t) ids = if t == "" then ids else t ∷ ids
add_text v ids = ids

abbrev pub ids_of : List Json → List String
ids_of [] = []
ids_of (obj m ∷ ms) = add_text (get "id" m) (ids_of ms)
ids_of (v ∷ ms) = ids_of ms

abbrev pub stored : String → List String → Bool
stored t [] = false
stored t (id ∷ ids) = id == t || stored t ids

-- A message that souk has not stored yet: it has no id, or one that is not among those.
abbrev has_new_id : List String → Json → Bool
has_new_id ids (str t) = not (stored t ids)
has_new_id ids v = true

abbrev pub is_new : List String → Json → Bool
is_new ids (obj m) = has_new_id ids (get "id" m)
is_new ids v = false

-- A message as it is read here: a dict whose id, if it has one, is a text.
pub record IsMessage (v : Json) : Type 0 where
  pub fields : Fields
  pub is_dict : v ≡ obj fields
  pub id : (get "id" fields ≡ null) ⊎ ((t : String) × (get "id" fields ≡ str t))

is_seen-null : (ids : List String) → is_seen null (map (λ t. str t) ids) ≡ false
is_seen-null [] = refl
is_seen-null (id ∷ ids) = is_seen-null ids

is_seen-stored :
    (t : String) (ids : List String) → is_seen (str t) (map (λ i. str i) ids) ≡ stored t ids
is_seen-stored t [] = refl
is_seen-stored t (id ∷ ids) = elim (Bool-cases (id == t)) [
  | inl e ↦ rw e refl
  | inr e ↦ rw e (is_seen-stored t ids)
]

seen_of-ids_of :
    (ms : List Json) → All IsMessage ms → seen_of ms ≡ some (map (λ t. str t) (ids_of ms))
seen_of-ids_of [] h = refl
seen_of-ids_of (v ∷ ms) (m, h) = rw (m.is_dict, seen_of-ids_of ms h) (added m.id)
  where
    added :
        (get "id" m.fields ≡ null) ⊎ ((t : String) × (get "id" m.fields ≡ str t))
        → add_id (get "id" m.fields) (map (λ t. str t) (ids_of ms))
          ≡ some (map (λ t. str t) (add_text (get "id" m.fields) (ids_of ms)))
    added (inl e) = rw e refl
    added (inr (t, e)) = elim (Bool-cases (t == "")) [
      | inl q ↦ rw (e, q) refl
      | inr q ↦ rw (e, q) refl
    ]

tail_of-select :
    (ids : List String) (ms : List Json)
    → All IsMessage ms
    → tail_of (map (λ t. str t) ids) ms ≡ some (select (is_new ids) ms)
tail_of-select ids [] h = refl
tail_of-select ids (v ∷ ms) (m, h) = rw (m.is_dict, tail_of-select ids ms h) (kept m.id)
  where
    kept :
        (get "id" m.fields ≡ null) ⊎ ((t : String) × (get "id" m.fields ≡ str t))
        → keep_new (map (λ t. str t) ids) m.fields (select (is_new ids) ms)
          ≡ some (
              if has_new_id ids (get "id" m.fields)
              then obj m.fields ∷ select (is_new ids) ms
              else select (is_new ids) ms)
    kept (inl e) = rw (e, is_seen-null ids) refl
    kept (inr (t, e)) = elim (Bool-cases (stored t ids)) [
      | inl q ↦ rw (e, is_seen-stored t ids, q) refl
      | inr q ↦ rw (e, is_seen-stored t ids, q) refl
    ]

-- The caller's own messages: a list, or nothing for a value that counts as none.
abbrev pub messages_of : Json → List Json
messages_of (arr xs) = to_list xs
messages_of _ = []

own_messages-messages_of :
    (v : Json)
    → ((xs : Items) × (v ≡ arr xs)) ⊎ (truthy v ≡ false)
    → own_messages v ≡ some (messages_of v)
own_messages-messages_of v (inl (xs, e)) = rw e refl
own_messages-messages_of (arr xs) (inr e) = refl
own_messages-messages_of null (inr e) = refl
own_messages-messages_of (bool b) (inr e) = rw e refl
own_messages-messages_of (int n) (inr e) = rw e refl
own_messages-messages_of (float x) (inr e) = rw e refl
own_messages-messages_of (str s) (inr e) = rw e refl
own_messages-messages_of (obj fs) (inr e) = rw e refl

-- What an agent is shown of the thread: what souk answers, if there is a limit other than 0, the input
-- names a thread and there is a link; nothing if souk does not answer.
abbrev pub in_answer : Option (List Json) → List Json
in_answer none = []
in_answer (some history) = history

abbrev pub history_for : Fields → Bool → Option ℤ → Option (List Json) → List Json
history_for run_input linked none answer = []
history_for run_input linked (some (pos zero)) answer = []
history_for run_input linked (some n) answer =
    if truthy (get "threadId" run_input) then (if linked then in_answer answer else []) else []

-- The input with this history in front of those of its own messages that are not in it.
pub record IsMerged (history : List Json) (run_input out : Fields) : Type 0 where
  pub messages :
      get "messages" out
      ≡ arr (
          from_list
            (history ++ select (is_new (ids_of history)) (messages_of (get "messages" run_input))))
  pub others : (k : String) → k ≢ "messages" → get k out ≡ get k run_input

-- Without a history, the input as it was.
abbrev pub Shows : List Json → Fields → Fields → Type 0
Shows [] run_input out = out ≡ run_input
Shows (m ∷ ms) run_input out = IsMerged (m ∷ ms) run_input out

module _ (run_input : Fields)
    (own : ((xs : Items) × (get "messages" run_input ≡ arr xs))
      ⊎ (truthy (get "messages" run_input) ≡ false))
    (readable : All IsMessage (messages_of (get "messages" run_input))) where
  with_answer-Shows :
      (history : List Json)
      → All IsMessage history
      → (out : Fields) × (with_answer run_input (some history) ≡ some out)
        × Shows history run_input out
  with_answer-Shows [] h = (
    run_input,
    rw
        (
          own_messages-messages_of (get "messages" run_input) own,
          tail_of-select [] (messages_of (get "messages" run_input)) readable,
        )
        refl,
    refl,
  )
  with_answer-Shows (m ∷ ms) h =
      let new = select (is_new (ids_of (m ∷ ms))) (messages_of (get "messages" run_input)) in
      (
        put "messages" (arr (from_list ((m ∷ ms) ++ new))) run_input,
        ap (with_seen run_input (m ∷ ms)) (seen_of-ids_of (m ∷ ms) h)
            ∙ ap (with_own run_input (m ∷ ms) (map (λ t. str t) (ids_of (m ∷ ms))))
                (own_messages-messages_of (get "messages" run_input) own)
            ∙ ap (with_tail run_input (m ∷ ms)) (
                tail_of-select (ids_of (m ∷ ms)) (messages_of (get "messages" run_input)) readable),
        record {
          messages = get-put_self "messages" (arr (from_list ((m ∷ ms) ++ new))) run_input;
          others = λ k n.
              get-put_other "messages" k (arr (from_list ((m ∷ ms) ++ new))) run_input
                (λ q. n (sym q));
        },
      )

  asked :
      (thread linked : Bool) (answer : Option (List Json))
      → All IsMessage (if thread then (if linked then in_answer answer else []) else [])
      → (out : Fields) × ((if thread && linked
            then with_answer run_input answer
            else some run_input)
          ≡ some out)
        × Shows (if thread then (if linked then in_answer answer else []) else []) run_input out
  asked true true none h = (run_input, refl, refl)
  asked true true (some history) h = with_answer-Shows history h
  asked true false answer h = (run_input, refl, refl)
  asked false linked answer h = (run_input, refl, refl)

  -- For an input whose messages are a list, or nothing, and an answer, all of dicts whose ids are texts
  -- or absent, an input is always given back. It is as it was if there is no limit or the limit is 0,
  -- if it names no thread, without a link, if souk fails to answer or answers with no message.
  -- Otherwise, a negative limit included, its messages are all of souk's answer in that order and
  -- then, in theirs, those of its own that have no id or one that no message of the answer has, where
  -- an empty text is no id of the answer's; and every other key is as it was.
  pub with_thread_history-merges :
      (linked : Bool) (limit : Option ℤ) (answer : Option (List Json))
      → All IsMessage (history_for run_input linked limit answer)
      → (out : Fields) × (with_thread_history run_input linked limit answer ≡ some out)
        × Shows (history_for run_input linked limit answer) run_input out
  unfolding with_thread_history
  with_thread_history-merges linked none answer h = (run_input, refl, refl)
  with_thread_history-merges linked (some (pos zero)) answer h = (run_input, refl, refl)
  with_thread_history-merges linked (some (pos (suc n))) answer h =
      asked (truthy (get "threadId" run_input)) linked answer h
  with_thread_history-merges linked (some (negsuc n)) answer h =
      asked (truthy (get "threadId" run_input)) linked answer h
