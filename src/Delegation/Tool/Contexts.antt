-- ===== src/Delegation/Tool/Contexts.antt =====
-- What the updates of a call do to the context ids that the run keeps.
use agent_souk_server.Delegation.{SubAgentConfig, Address}
use agent_souk_server.Delegation.Calls.{
  Call, Flow, running, broken, dict_or_empty, dict_or_missing, parts_of, add_parts, progress_of,
  report, note_context, note_state, take_text, take_parts, take_artifact, take_artifact_update,
  take_status, returned_context, take_context, take_update, on_update, follow_call,
}
use agent_souk_server.Gateway.Wire.{equals_str}
use agent_souk_server.Base.{
  String, ◌==◌, eq_iff, eq_refl, ◌≡◌, refl, ap, ◌∙◌, inl, inr, true, Option, none, some, List, [],
  ◌∷◌, if◌then◌else◌, Bool-cases, subst, some_inj, none-ne-some,
}
use agent_souk_server.Base.Json.{Json, Fields, get_field, get, truthy}
use agent_souk_server.Base.Dict.{Dict, lookup, insert, lookup-insert}

abbrev contexts_in : Flow → Dict Json
contexts_in (running c) = c.contexts
contexts_in (broken c) = c.contexts

abbrev filled : Option Json → Option Json
filled none = none
filled (some v) = if truthy v then some v else none

-- The context that an update returns, if it returns one.
abbrev pub told_context : Fields → Option Json
told_context update = elim (dict_or_empty (get "statusUpdate" update)) [
  | none ↦ none
  | some status ↦ filled (returned_context status (dict_or_empty (get "artifactUpdate" update)))
]

abbrev or_older : Option Json → Option Json → Option Json
or_older none old = old
or_older (some v) old = some v

-- The last context that some updates return, or else the one that was known before.
abbrev pub last_context : List Fields → Option Json → Option Json
last_context [] old = old
last_context (u ∷ us) old = last_context us (or_older (told_context u) old)

abbrev noted : String → Option Json → Dict Json → Dict Json
noted name none d = d
noted name (some v) d = insert name v d

lookup-noted :
    (name j : String) (v : Option Json) (d : Dict Json)
    → lookup j (noted name v d) ≡ (if name == j then or_older v (lookup name d) else lookup j d)
lookup-noted name j none d = elim (Bool-cases (name == j)) [
  | inl e ↦ rw (e, (eq_iff name j).0 e) refl
  | inr e ↦ rw e refl
]
lookup-noted name j (some v) d = lookup-insert name j v d

take_parts-kept : (o : Option (List Json)) (c : Call) → contexts_in (take_parts o c) ≡ c.contexts
take_parts-kept none c = refl
take_parts-kept (some parts) c = taken (add_parts c.final_text parts)
  where
    taken : (t : Option String) → contexts_in (take_text t c) ≡ c.contexts
    taken none = refl
    taken (some t) = refl

take_artifact_update-kept :
    (o : Option Fields) (c : Call) → contexts_in (take_artifact_update o c) ≡ c.contexts
take_artifact_update-kept none c = refl
take_artifact_update-kept (some u) c = taken (dict_or_empty (get "artifact" u))
  where
    taken : (o : Option Fields) → contexts_in (take_artifact o c) ≡ c.contexts
    taken none = refl
    taken (some a) = take_parts-kept (parts_of (get_field "parts" a)) c

note_state-kept : (state : Json) (c : Call) → (note_state state c).contexts ≡ c.contexts
note_state-kept state c = elim (Bool-cases (equals_str state "TASK_STATE_FAILED")) [
  | inl e ↦ rw e refl
  | inr e ↦ elim (Bool-cases (equals_str state "TASK_STATE_INPUT_REQUIRED")) [
    | inl f ↦ rw (e, f) refl
    | inr f ↦ rw (e, f) refl
  ]
]

take_status-kept :
    (o artifact : Option Fields) (c : Call) → contexts_in (take_status o artifact c) ≡ c.contexts
take_status-kept none artifact c = refl
take_status-kept (some s) artifact c =
    take_artifact_update-kept artifact (note_state (get "state" s) c)
    ∙ note_state-kept (get "state" s) c

take_context-noted :
    (name : String) (v : Option Json) (status : Fields) (artifact : Option Fields) (c : Call)
    → contexts_in (take_context name v status artifact c) ≡ noted name (filled v) c.contexts
take_context-noted name none status artifact c = refl
take_context-noted name (some v) status artifact c =
    take_status-kept (dict_or_missing (get_field "status" status)) artifact (note_context name v c)
    ∙ kept
  where
    kept : (note_context name v c).contexts ≡ noted name (filled (some v)) c.contexts
    kept = elim (Bool-cases (truthy v)) [ inl e ↦ rw e refl | inr e ↦ rw e refl ]

broken-ne-running : {c d : Call} → broken c ≡ running d → ⊥
broken-ne-running e = cc

running_inj : {c d : Call} → running c ≡ running d → c ≡ d
running_inj e = cc

module _ (sub : SubAgentConfig) (place : Address) where
  on_update-noted :
      (u : Fields) (c : Call)
      → contexts_in (on_update sub place u c) ≡ noted sub.name (told_context u) c.contexts
  unfolding on_update
  on_update-noted u c = updated (dict_or_empty (get "statusUpdate" u))
    where
      updated :
          (o : Option Fields)
          → contexts_in (
              take_update sub.name o
                (dict_or_empty (get "artifactUpdate" u))
                (report (progress_of sub place u) c))
            ≡ noted sub.name
                (elim o [
                  | none ↦ none
                  | some status ↦
                      filled (returned_context status (dict_or_empty (get "artifactUpdate" u)))
                ])
                c.contexts
      updated none = refl
      updated (some status) =
          take_context-noted sub.name
            (returned_context status (dict_or_empty (get "artifactUpdate" u))) status
            (dict_or_empty (get "artifactUpdate" u)) (report (progress_of sub place u) c)

  -- After updates that all went through, a sub-agent's context is the last that they returned; the
  -- contexts of the others are what they were.
  pub follow_call-noted :
      (us : List Fields) (c d : Call) (j : String)
      → follow_call sub place us c ≡ running d
      → lookup j d.contexts ≡ (
          if sub.name == j
          then last_context us (lookup sub.name c.contexts)
          else lookup j c.contexts)
  unfolding follow_call
  follow_call-noted [] c d j h =
      subst
        (λ x.
          lookup j x.contexts
          ≡ (if sub.name == j then lookup sub.name c.contexts else lookup j c.contexts))
        (running_inj h) (lookup-noted sub.name j none c.contexts)
  follow_call-noted (u ∷ us) c d j h =
      followed (on_update sub place u c) (on_update-noted u c) (λ x. follow_call-noted us x d j) h
    where
      followed :
          (f : Flow)
          → contexts_in f ≡ noted sub.name (told_context u) c.contexts
          → ((x : Call)
              → follow_call sub place us x ≡ running d
              → lookup j d.contexts ≡ (
                  if sub.name == j
                  then last_context us (lookup sub.name x.contexts)
                  else lookup j x.contexts))
          → elim f [ running x ↦ follow_call sub place us x | broken x ↦ broken x ] ≡ running d
          → lookup j d.contexts ≡ (
              if sub.name == j
              then last_context us (or_older (told_context u) (lookup sub.name c.contexts))
              else lookup j c.contexts)
      followed (broken x) n rest e = absurd (broken-ne-running e)
      followed (running x) n rest e = elim (Bool-cases (sub.name == j)) [
        | inl f ↦ rw f (
            (rw f at (rest x e))
            ∙ ap (last_context us) (
                ap (lookup sub.name) n
                ∙ (rw (eq_refl sub.name) at
                    (lookup-noted sub.name sub.name (told_context u) c.contexts))))
        | inr f ↦ rw f (
            (rw f at (rest x e))
            ∙ ap (lookup j) n
            ∙ (rw f at (lookup-noted sub.name j (told_context u) c.contexts)))
      ]

truthy_of_told : (o : Option Json) (v : Json) → filled o ≡ some v → truthy v ≡ true
truthy_of_told none v e = absurd (none-ne-some e)
truthy_of_told (some w) v e = elim (Bool-cases (truthy w)) [
  | inl t ↦ subst (λ x. truthy x ≡ true) (some_inj (rw t at e)) t
  | inr t ↦ absurd (none-ne-some (rw t at e))
]

told_context-filled : (u : Fields) (v : Json) → told_context u ≡ some v → truthy v ≡ true
told_context-filled u v e = told (dict_or_empty (get "statusUpdate" u)) e
  where
    told :
        (o : Option Fields)
        → elim o [
          | none ↦ none
          | some status ↦ filled (returned_context status (dict_or_empty (get "artifactUpdate" u)))
        ]
          ≡ some v
        → truthy v ≡ true
    told none h = absurd (none-ne-some h)
    told (some status) h =
        truthy_of_told (returned_context status (dict_or_empty (get "artifactUpdate" u))) v h

last_context-filled :
    (us : List Fields) (w v : Json)
    → truthy w ≡ true
    → last_context us (some w) ≡ some v
    → truthy v ≡ true
last_context-filled [] w v t h = subst (λ x. truthy x ≡ true) (some_inj h) t
last_context-filled (u ∷ us) w v t h =
    told (told_context u) (told_context-filled u) (λ x. last_context-filled us x v) h
  where
    told :
        (o : Option Json)
        → ((x : Json) → o ≡ some x → truthy x ≡ true)
        → ((x : Json) → truthy x ≡ true → last_context us (some x) ≡ some v → truthy v ≡ true)
        → last_context us (or_older o (some w)) ≡ some v
        → truthy v ≡ true
    told none k later e = later w t e
    told (some x) k later e = later x (k x refl) e

pub last_context-told :
    (us : List Fields) (old : Option Json) (v : Json)
    → last_context us none ≡ some v
    → (last_context us old ≡ some v) × (truthy v ≡ true)
last_context-told [] old v e = absurd (none-ne-some e)
last_context-told (u ∷ us) old v e =
    told (told_context u) (told_context-filled u) (last_context-told us old v) e
  where
    told :
        (o : Option Json)
        → ((x : Json) → o ≡ some x → truthy x ≡ true)
        → (last_context us none ≡ some v → (last_context us old ≡ some v) × (truthy v ≡ true))
        → last_context us (or_older o none) ≡ some v
        → (last_context us (or_older o old) ≡ some v) × (truthy v ≡ true)
    told none k later h = later h
    told (some x) k later h = (h, last_context-filled us x v (k x refl) h)
