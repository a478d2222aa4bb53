-- ===== src/AgentSdk/Registration/Signed.antt =====
-- What a provider registers is what it signed.
use agent_souk_server.AgentSdk.Registration.{
  Handles, Signer, keys_of, values_of, add_agents, agents_by_name, register_body,
}
use agent_souk_server.Base.{
  String, ◌==◌, eq_iff, ◌≡◌, refl, sym, ap, ◌∙◌, inl, inr, Bool, true, false, ◌||◌, Option, List,
  [], ◌∷◌, map, arith, Bool-cases, subst,
}
use agent_souk_server.Base.Dict.{Dict, insert}
use agent_souk_server.Base.Text.{sorted}

abbrev pub elem_name : String → List String → Bool
elem_name s [] = false
elem_name s (t ∷ ts) = t == s || elem_name s ts

abbrev pub AreDistinct : List String → Type 0
AreDistinct [] = Unit
AreDistinct (s ∷ ss) = (elem_name s ss ≡ false) × AreDistinct ss

or_false : (b : Bool) → (b || false) ≡ b
or_false true = refl
or_false false = refl

or_swap : (a b c : Bool) → ((a || b) || c) ≡ (b || (a || c))
or_swap true true c = refl
or_swap true false c = refl
or_swap false true c = refl
or_swap false false c = refl

module _ {ℓ} {A : Type ℓ} where
  elem_name-insert :
      (k j : String) (v : A) (d : Dict A)
      → elem_name j (keys_of (insert k v d)) ≡ (k == j || elem_name j (keys_of d))
  elem_name-insert k j v [] = refl
  elem_name-insert k j v ((i, w) ∷ d) =
      ground (arith, eq_iff i k, eq_iff k j, eq_iff i j, elem_name-insert k j v d)

  insert-AreDistinct :
      (k : String) (v : A) (d : Dict A)
      → AreDistinct (keys_of d)
      → AreDistinct (keys_of (insert k v d))
  insert-AreDistinct k v [] h = (refl, tt)
  insert-AreDistinct k v ((i, w) ∷ d) h = elim (Bool-cases (i == k)) [
    | inl e ↦ rw e h
    | inr e ↦ rw e (apart e, insert-AreDistinct k v d h.1)
  ]
    where
      apart : (i == k) ≡ false → elem_name i (keys_of (insert k v d)) ≡ false
      apart e = ground (arith, eq_iff i k, eq_iff k i, h.0, elem_name-insert k i v d)

module _ (hs : Handles) where
  -- Each value of the dict has its key for a name.
  abbrev AreNamed : Dict hs.Handle → Type 0
  AreNamed [] = Unit
  AreNamed ((k, h) ∷ d) = (hs.name_of h ≡ k) × AreNamed d

  insert-AreNamed :
      (h : hs.Handle) (d : Dict hs.Handle) → AreNamed d → AreNamed (insert (hs.name_of h) h d)
  insert-AreNamed h [] n = (refl, tt)
  insert-AreNamed h ((k, w) ∷ d) n = elim (Bool-cases (k == hs.name_of h)) [
    | inl e ↦ rw e (sym ((eq_iff k (hs.name_of h)).0 e), n.1)
    | inr e ↦ rw e (n.0, insert-AreNamed h d n.1)
  ]

  names-keys :
      (d : Dict hs.Handle)
      → AreNamed d
      → map (λ a. a.name) (map hs.as_registration (values_of d)) ≡ keys_of d
  names-keys [] n = refl
  names-keys ((k, w) ∷ d) n = λ i. (hs.name_kept w ∙ n.0) i ∷ names-keys d n.1 i

  add_agents-kept :
      (handles : List hs.Handle) (d : Dict hs.Handle)
      → AreNamed d
      → AreDistinct (keys_of d)
      → AreNamed (add_agents hs d handles)
        × AreDistinct (keys_of (add_agents hs d handles))
        × ((j : String)
            → elem_name j (keys_of (add_agents hs d handles))
              ≡ (elem_name j (keys_of d) || elem_name j (map hs.name_of handles)))
  add_agents-kept [] d n a = (n, a, λ j. sym (or_false (elem_name j (keys_of d))))
  add_agents-kept (h ∷ rest) d n a =
      let (named, distinct, has_all) =
        add_agents-kept rest (insert (hs.name_of h) h d) (insert-AreNamed h d n)
          (insert-AreDistinct (hs.name_of h) h d a) in
      (
        named,
        distinct,
        λ j.
            has_all j
            ∙ ap (λ b. b || elem_name j (map hs.name_of rest))
                (elem_name-insert (hs.name_of h) j h d)
            ∙ or_swap (hs.name_of h == j) (elem_name j (keys_of d))
                (elem_name j (map hs.name_of rest)),
      )

  -- Whatever agents a provider is given, also two of one name, the registration that it posts names
  -- each of their names once and no other, and its signature and time are those that its identity
  -- gives for exactly the posted names, sorted.
  pub register_body-signed :
      (signer : Signer) (provider_name : Option String) (handles : List hs.Handle) (name : String)
      → (let body = register_body hs signer provider_name (agents_by_name hs handles) in
          let names = map (λ a. a.name) body.agents in
          ((body.signature, body.timestamp) ≡ signer.sign_registration (sorted names))
          × AreDistinct names
          × (elem_name name names ≡ elem_name name (map hs.name_of handles)))
  unfolding register_body agents_by_name
  register_body-signed signer provider_name handles name =
      let (named, distinct, has_all) = add_agents-kept handles [] tt tt in
      let e = names-keys (add_agents hs [] handles) named in
      (
        ap (λ l. signer.sign_registration (sorted l)) (sym e),
        subst AreDistinct (sym e) distinct,
        ap (elem_name name) e ∙ has_all name,
      )
