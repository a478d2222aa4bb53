-- ===== src/Agents/Merge/Order.antt =====
-- The run yields what was put before the adapter's task ended, in that order, and ends.
use agent_souk_server.Agents.Merge.{
  Slot, item, done, Merge, Move, put_event, drain_ends, next_item, fresh, run_moves,
}
use agent_souk_server.Base.{
  ℕ, suc, ◌+◌, ◌<◌, ◌≡◌, refl, sym, ap, ◌∙◌, true, false, List, [], ◌∷◌, ◌++◌, map, arith, length,
  length-append, subst, append-nil, append_assoc,
}
use agent_souk_server.Base.Json.{Json}

-- The events put before the adapter's task ended, and whether it did.
abbrev pub put_before_end : List Move → List Json
put_before_end [] = []
put_before_end (put_event v ∷ mvs) = v ∷ put_before_end mvs
put_before_end (drain_ends ∷ mvs) = []
put_before_end (next_item ∷ mvs) = put_before_end mvs

abbrev pub turns : List Move → ℕ
turns [] = 0
turns (next_item ∷ mvs) = suc (turns mvs)
turns (_ ∷ mvs) = turns mvs

-- The turns of the reader once the adapter's task has ended.
abbrev pub turns_after_end : List Move → ℕ
turns_after_end [] = 0
turns_after_end (drain_ends ∷ mvs) = turns mvs
turns_after_end (_ ∷ mvs) = turns_after_end mvs

abbrev items : List Json → List Slot
items ws = map item ws

abbrev filling : List Json → List Json → Merge
filling ws y = record { combined = items ws; yielded = y; drained = false; left = false }

abbrev emptying : List Json → List Slot → List Json → Merge
emptying ws late y = record {
  combined = items ws ++ done ∷ late;
  yielded = y;
  drained = true;
  left = false;
}

abbrev emptied : List Slot → List Json → Merge
emptied late y = record { combined = late; yielded = y; drained = true; left = true }

-- What the reader has is the front of all, and with enough turns it is all, and the loop is left.
record Reads (Enough : Type 0) (whole_list : List Json) (m : Merge) : Type 0 where
  rest : List Json
  in_order : m.yielded ++ rest ≡ whole_list
  all_read : Enough → (m.left ≡ true) × (m.yielded ≡ whole_list)

items-append : (ws : List Json) (v : Json) → items ws ++ item v ∷ [] ≡ items (ws ++ v ∷ [])
items-append [] v = refl
items-append (w ∷ ws) v = ap (◌∷◌ (item w)) (items-append ws v)

length-one : (ws : List Json) (v : Json) → length (ws ++ v ∷ []) ≡ suc (length ws)
length-one ws v = omega (arith, length-append ws (v ∷ []))

run_moves-emptied :
    (mvs : List Move) (late : List Slot) (y : List Json)
    → ((run_moves mvs (emptied late y)).left ≡ true)
      × ((run_moves mvs (emptied late y)).yielded ≡ y)
unfolding run_moves
run_moves-emptied [] late y = (refl, refl)
run_moves-emptied (put_event v ∷ mvs) late y = run_moves-emptied mvs (late ++ item v ∷ []) y
run_moves-emptied (drain_ends ∷ mvs) late y = run_moves-emptied mvs late y
run_moves-emptied (next_item ∷ mvs) late y = run_moves-emptied mvs late y

run_moves-emptying :
    (mvs : List Move) (ws : List Json) (late : List Slot) (y : List Json)
    → Reads (length ws < turns mvs) (y ++ ws) (run_moves mvs (emptying ws late y))
unfolding run_moves
run_moves-emptying [] ws late y = record {
  rest = ws;
  in_order = refl;
  all_read = λ h. absurd (omega arith);
}
run_moves-emptying (put_event v ∷ mvs) ws late y =
    subst
      (λ l.
        Reads (length ws < turns mvs) (y ++ ws)
          (run_moves mvs (record { combined = l; yielded = y; drained = true; left = false })))
      (sym (append_assoc (items ws) (done ∷ late) (item v ∷ [])))
      (run_moves-emptying mvs ws (late ++ item v ∷ []) y)
run_moves-emptying (drain_ends ∷ mvs) ws late y = run_moves-emptying mvs ws late y
run_moves-emptying (next_item ∷ mvs) [] late y =
    let (l, e) = run_moves-emptied mvs late y in
    record {
      rest = [];
      in_order = append-nil _ ∙ e ∙ sym (append-nil y);
      all_read = λ h. (l, e ∙ sym (append-nil y));
    }
run_moves-emptying (next_item ∷ mvs) (w ∷ ws) late y =
    let r = run_moves-emptying mvs ws late (y ++ w ∷ []) in
    record {
      rest = r.rest;
      in_order = r.in_order ∙ append_assoc y (w ∷ []) ws;
      all_read = λ h. let (l, e) = r.all_read (omega arith) in (l, e ∙ append_assoc y (w ∷ []) ws);
    }

run_moves-filling :
    (mvs : List Move) (ws : List Json) (y : List Json)
    → Reads
        (length ws + length (put_before_end mvs) < turns_after_end mvs)
        (y ++ (ws ++ put_before_end mvs))
        (run_moves mvs (filling ws y))
unfolding run_moves
run_moves-filling [] ws y = record {
  rest = ws;
  in_order = ap (◌++◌ y) (sym (append-nil ws));
  all_read = λ h. absurd (omega arith);
}
run_moves-filling (put_event v ∷ mvs) ws y =
    let r = run_moves-filling mvs (ws ++ v ∷ []) y in
    let more = ap (◌++◌ y) (append_assoc ws (v ∷ []) (put_before_end mvs)) in
    subst
      (λ l.
        Reads (length ws + suc (length (put_before_end mvs)) < turns_after_end mvs)
          (y ++ (ws ++ v ∷ put_before_end mvs))
          (run_moves mvs (record { combined = l; yielded = y; drained = false; left = false })))
      (sym (items-append ws v))
      (record {
        rest = r.rest;
        in_order = r.in_order ∙ more;
        all_read = λ h. let (l, e) = r.all_read (omega (arith, length-one ws v)) in (l, e ∙ more);
      })
run_moves-filling (drain_ends ∷ mvs) ws y =
    let r = run_moves-emptying mvs ws [] y in
    let same_list = ap (◌++◌ y) (sym (append-nil ws)) in
    record {
      rest = r.rest;
      in_order = r.in_order ∙ same_list;
      all_read = λ h. let (l, e) = r.all_read (omega arith) in (l, e ∙ same_list);
    }
run_moves-filling (next_item ∷ mvs) [] y = run_moves-filling mvs [] y
run_moves-filling (next_item ∷ mvs) (w ∷ ws) y =
    let r = run_moves-filling mvs ws (y ++ w ∷ []) in
    let moved = append_assoc y (w ∷ []) (ws ++ put_before_end mvs) in
    record {
      rest = r.rest;
      in_order = r.in_order ∙ moved;
      all_read = λ h. let (l, e) = r.all_read (omega arith) in (l, e ∙ moved);
    }

-- Whatever the moves, the events that the run has yielded so far are the first of those put before
-- the adapter's task ended, in the order in which they were put.
pub run_moves-ordered :
    (mvs : List Move)
    → (rest : List Json) × ((run_moves mvs fresh).yielded ++ rest ≡ put_before_end mvs)
run_moves-ordered mvs = let r = run_moves-filling mvs [] [] in (r.rest, r.in_order)

-- The run ends: when the adapter's task ends, by a return or an exception, and the reader asks after
-- that more often than there were events before it, whatever else is put meanwhile, the loop is left,
-- and every event put before the end of the task has been yielded, none lost and none twice.
pub run_moves-ends :
    (mvs : List Move)
    → length (put_before_end mvs) < turns_after_end mvs
    → ((run_moves mvs fresh).left ≡ true) × ((run_moves mvs fresh).yielded ≡ put_before_end mvs)
run_moves-ends mvs h = (run_moves-filling mvs [] []).all_read (omega arith)
