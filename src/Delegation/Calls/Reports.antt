-- ===== src/Delegation/Calls/Reports.antt =====
-- What a delegated call is reported as.
use agent_souk_server.Delegation.{SubAgentConfig, Address}
use agent_souk_server.Delegation.Calls.{
  Call, Flow, running, broken, dict_or_empty, dict_or_missing, parts_of, add_parts, or_null,
  progress_of, report, note_context, note_state, take_text, take_parts, take_artifact,
  take_artifact_update, take_status, returned_context, take_context, take_update, on_update,
  follow_call,
}
use agent_souk_server.Gateway.Wire.{equals_str, equals_str-eq}
use agent_souk_server.Base.{
  String, ◌≡◌, refl, sym, ap, ◌∙◌, inl, inr, Bool, true, false, ◌||◌, Option, none, some, List, [],
  ◌∷◌, ◌++◌, map, arith, if◌then◌else◌, Bool-cases, subst, append-nil, append_assoc,
}
use agent_souk_server.Base.Json.{
  Json, null, str, obj, Fields, end, field, get_field, get, merge, truthy,
}

-- The state that an update tells, if it tells one.
abbrev pub state_in : Fields → Json
state_in update = elim (dict_or_empty (get "statusUpdate" update)) [
  | none ↦ null
  | some status ↦ elim (dict_or_missing (get_field "status" status)) [
    | none ↦ null
    | some s ↦ get "state" s
  ]
]

abbrev pub tells : String → Fields → Bool
tells state update = equals_str (state_in update) state

abbrev pub any_tells : String → List Fields → Bool
any_tells state [] = false
any_tells state (u ∷ us) = if tells state u then true else any_tells state us

broken-ne-running : {c d : Call} → broken c ≡ running d → ⊥
broken-ne-running e = cc

running_inj : {c d : Call} → running c ≡ running d → c ≡ d
running_inj e = cc

-- Both calls have the same flags and the same progress.
record IsAlike (c d : Call) : Type 0 where
  failed_is : d.failed ≡ c.failed
  pending_is : d.pending ≡ c.pending
  progress_is : d.progress ≡ c.progress

IsAlike-trans : {a b c : Call} → IsAlike a b → IsAlike b c → IsAlike a c
IsAlike-trans h k = record {
  failed_is = k.failed_is ∙ h.failed_is;
  pending_is = k.pending_is ∙ h.pending_is;
  progress_is = k.progress_is ∙ h.progress_is;
}

take_text-IsAlike : (t : Option String) (c d : Call) → take_text t c ≡ running d → IsAlike c d
take_text-IsAlike none c d e = absurd (broken-ne-running e)
take_text-IsAlike (some t) c d e =
    subst (IsAlike c) (running_inj e)
      (record { failed_is = refl; pending_is = refl; progress_is = refl })

take_parts-IsAlike :
    (o : Option (List Json)) (c d : Call) → take_parts o c ≡ running d → IsAlike c d
take_parts-IsAlike none c d e = absurd (broken-ne-running e)
take_parts-IsAlike (some parts) c d e = take_text-IsAlike (add_parts c.final_text parts) c d e

take_artifact-IsAlike :
    (o : Option Fields) (c d : Call) → take_artifact o c ≡ running d → IsAlike c d
take_artifact-IsAlike none c d e = absurd (broken-ne-running e)
take_artifact-IsAlike (some a) c d e = take_parts-IsAlike (parts_of (get_field "parts" a)) c d e

take_artifact_update-IsAlike :
    (o : Option Fields) (c d : Call) → take_artifact_update o c ≡ running d → IsAlike c d
take_artifact_update-IsAlike none c d e = absurd (broken-ne-running e)
take_artifact_update-IsAlike (some u) c d e =
    take_artifact-IsAlike (dict_or_empty (get "artifact" u)) c d e

note_context-IsAlike : (name : String) (v : Json) (c : Call) → IsAlike c (note_context name v c)
note_context-IsAlike name v c = elim (Bool-cases (truthy v)) [
  | inl e ↦ rw e (record { failed_is = refl; pending_is = refl; progress_is = refl })
  | inr e ↦ rw e (record { failed_is = refl; pending_is = refl; progress_is = refl })
]

-- What a state does to the flags and to the progress.
record IsNoted (state : Json) (c d : Call) : Type 0 where
  failed_is : d.failed ≡ (if equals_str state "TASK_STATE_FAILED" then true else c.failed)
  pending_is :
      d.pending ≡ (if equals_str state "TASK_STATE_INPUT_REQUIRED" then true else c.pending)
  progress_is : d.progress ≡ c.progress

note_state-IsNoted : (state : Json) (c : Call) → IsNoted state c (note_state state c)
note_state-IsNoted state c = elim (Bool-cases (equals_str state "TASK_STATE_FAILED")) [
  | inl e ↦
      rw (equals_str-eq state "TASK_STATE_FAILED" e)
        (record { failed_is = refl; pending_is = refl; progress_is = refl })
  | inr e ↦ elim (Bool-cases (equals_str state "TASK_STATE_INPUT_REQUIRED")) [
    | inl f ↦
        rw (equals_str-eq state "TASK_STATE_INPUT_REQUIRED" f)
          (record { failed_is = refl; pending_is = refl; progress_is = refl })
    | inr f ↦
        rw (e, f) (record { failed_is = rw e refl; pending_is = rw f refl; progress_is = refl })
  ]
]

IsNoted-trans :
    (state : Json) (a b c d : Call)
    → IsAlike a b
    → IsNoted state b c
    → IsAlike c d
    → IsNoted state a d
IsNoted-trans state a b c d h n k = record {
  failed_is =
      k.failed_is
      ∙ n.failed_is
      ∙ ap (λ x. if equals_str state "TASK_STATE_FAILED" then true else x) h.failed_is;
  pending_is =
      k.pending_is
      ∙ n.pending_is
      ∙ ap (λ x. if equals_str state "TASK_STATE_INPUT_REQUIRED" then true else x) h.pending_is;
  progress_is = k.progress_is ∙ n.progress_is ∙ h.progress_is;
}

-- The state of an update, from its `statusUpdate` as a dict.
abbrev state_of : Option Fields → Json
state_of o = elim o [ none ↦ null | some s ↦ get "state" s ]

take_status-IsNoted :
    (o artifact : Option Fields) (a b d : Call)
    → IsAlike a b
    → take_status o artifact b ≡ running d
    → IsNoted (state_of o) a d
take_status-IsNoted none artifact a b d h e = absurd (broken-ne-running e)
take_status-IsNoted (some s) artifact a b d h e =
    IsNoted-trans (get "state" s) a b (note_state (get "state" s) b) d h
      (note_state-IsNoted (get "state" s) b)
      (take_artifact_update-IsAlike artifact (note_state (get "state" s) b) d e)

take_update-IsNoted :
    (name : String) (o artifact : Option Fields) (a d : Call)
    → take_update name o artifact a ≡ running d
    → IsNoted
        (elim o [
          | none ↦ null
          | some status ↦ state_of (dict_or_missing (get_field "status" status))
        ])
        a
        d
take_update-IsNoted name none artifact a d e = absurd (broken-ne-running e)
take_update-IsNoted name (some status) artifact a d e =
    with_context (returned_context status artifact) e
  where
    with_context :
        (v : Option Json)
        → take_context name v status artifact a ≡ running d
        → IsNoted (state_of (dict_or_missing (get_field "status" status))) a d
    with_context none x = absurd (broken-ne-running x)
    with_context (some v) x =
        take_status-IsNoted (dict_or_missing (get_field "status" status)) artifact a
          (note_context name v a) d (note_context-IsAlike name v a) x

on_update-IsNoted :
    (sub : SubAgentConfig) (place : Address) (update : Fields) (c d : Call)
    → on_update sub place update c ≡ running d
    → IsNoted (state_in update) (report (progress_of sub place update) c) d
unfolding on_update
on_update-IsNoted sub place update c d e =
    take_update-IsNoted sub.name (dict_or_empty (get "statusUpdate" update))
      (dict_or_empty (get "artifactUpdate" update)) (report (progress_of sub place update) c) d e

-- A text, or `null` for none.
abbrev pub text_or_null : Option String → Json
text_or_null none = null
text_or_null (some s) = str s

-- The event that tells of an update: the update's own keys, over who sent it.
abbrev pub event_of : SubAgentConfig → Address → Fields → Fields
event_of sub place update = field "type" (str "CUSTOM") (
    field "name" (str "sub_agent_progress") (
      field "value"
        (obj (
          merge
            (field "sub_agent" (str sub.name) (
              field "provider" (text_or_null place.provider) (
                field "provider_key" (text_or_null place.provider_key)
                  (field "agent_name" (text_or_null place.agent_name) end))))
            update))
        end))

progress_of-event_of :
    (sub : SubAgentConfig) (place : Address) (update : Fields)
    → progress_of sub place update ≡ event_of sub place update
progress_of-event_of sub place update =
    rw (same place.provider, same place.provider_key, same place.agent_name) refl
  where
    same : (o : Option String) → or_null o ≡ text_or_null o
    same none = refl
    same (some s) = refl

-- A call whose updates all go through is failed exactly if it was or one of them says so, and likewise
-- pending, wherever in the stream that update stands and whatever comes after it; and its progress
-- queue has got one event for each update, in their order: a custom event `sub_agent_progress` whose
-- value is the update over the sub-agent's name and address.
pub follow_call-flags :
    (sub : SubAgentConfig) (place : Address) (updates : List Fields) (c d : Call)
    → follow_call sub place updates c ≡ running d
    → (d.failed ≡ (c.failed || any_tells "TASK_STATE_FAILED" updates))
      × (d.pending ≡ (c.pending || any_tells "TASK_STATE_INPUT_REQUIRED" updates))
      × (d.progress ≡ c.progress ++ map (event_of sub place) updates)
unfolding follow_call
follow_call-flags sub place [] c d e =
    subst
      (λ x.
        (x.failed ≡ (c.failed || false))
        × (x.pending ≡ (c.pending || false))
        × (x.progress ≡ c.progress ++ []))
      (running_inj e) (ground arith, ground arith, sym (append-nil c.progress))
follow_call-flags sub place (u ∷ us) c d e =
    step (on_update sub place u c) (λ x h. on_update-IsNoted sub place u c x h)
      (λ x h. follow_call-flags sub place us x d h) e
  where
    put_first :
        (ps qs rs : List Fields)
        → qs ≡ ps ++ progress_of sub place u ∷ []
        → qs ++ rs ≡ ps ++ event_of sub place u ∷ rs
    put_first ps qs rs q =
        ap (λ x. x ++ rs) q
        ∙ append_assoc ps (progress_of sub place u ∷ []) rs
        ∙ ap (λ x. ps ++ x ∷ rs) (progress_of-event_of sub place u)

    step :
        (f : Flow)
        → ((x : Call) → f ≡ running x → IsNoted (state_in u) (report (progress_of sub place u) c) x)
        → ((x : Call)
            → follow_call sub place us x ≡ running d
            → (d.failed ≡ (x.failed || any_tells "TASK_STATE_FAILED" us))
              × (d.pending ≡ (x.pending || any_tells "TASK_STATE_INPUT_REQUIRED" us))
              × (d.progress ≡ x.progress ++ map (event_of sub place) us))
        → elim f [ running x ↦ follow_call sub place us x | broken x ↦ broken x ] ≡ running d
        → (d.failed ≡ (c.failed || any_tells "TASK_STATE_FAILED" (u ∷ us)))
          × (d.pending ≡ (c.pending || any_tells "TASK_STATE_INPUT_REQUIRED" (u ∷ us)))
          × (d.progress ≡ c.progress ++ map (event_of sub place) (u ∷ us))
    step (broken x) noted rest h = absurd (broken-ne-running h)
    step (running x) noted rest h =
        let n = noted x refl in
        let (f, p, l) = rest x h in
        (
          ground (arith, f, n.failed_is),
          ground (arith, p, n.pending_is),
          l ∙ put_first c.progress x.progress (map (event_of sub place) us) n.progress_is,
        )
