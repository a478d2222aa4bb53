-- ===== src/Http/Addresses.antt =====
-- The address that the gateway gives out for an agent, on its agent card, on the roster and by the
-- docent, is one address, and its readers get the agent back from it.
use text.Mathlib.TextLemmas.{append_assoc as texts_assoc}
use agent_souk_server.Docent.{AgentSummary, Site, describe_agent}
use agent_souk_server.Client.{Row}
use agent_souk_server.Delegation.{pair_in, reverse_onto, explicit, rpc_url, address_from_url}
use agent_souk_server.Http.Routes.{interfaces}
use agent_souk_server.Http.Roster.{valid_name, AgentRosterEntry, entry_of}
use agent_souk_server.Http.Roster.Names.{valid_name-NoSlash}
use agent_souk_server.Base.{
  ℕ, String, ◌<>◌, ◌≡◌, refl, ap, ◌∙◌, true, some, List, [], ◌∷◌, ◌++◌, map, subst,
}
use agent_souk_server.Base.Text.{
  split_slash, rstrip_slash, NoSlash, split_slash-part, split_slash-append, rstrip_slash-append,
}

-- What a reader of the roster sees of a row.
abbrev pub row_of : AgentRosterEntry → Row
row_of e = record {
  provider_key = e.provider_key;
  fingerprint = e.fingerprint;
  name = e.name;
  description = e.description;
  online = e.online;
  provider_name = e.provider_name;
}

module _ (base fingerprint name : String) where
  abbrev path_text : String
  path_text = "/a2a/" <> fingerprint <> "/" <> name <> "/rpc"

  rstrip_slash-url : rstrip_slash (base <> path_text) ≡ base <> path_text
  rstrip_slash-url =
      subst (λ u. rstrip_slash u ≡ u) whole_url (rstrip_slash-append front "/rpc" refl)
    where
      front : String
      front = base <> "/a2a/" <> fingerprint <> "/" <> name

      whole_url : front <> "/rpc" ≡ base <> path_text
      whole_url = simp texts_assoc

  split_slash-url :
      NoSlash fingerprint
      → NoSlash name
      → split_slash (base <> path_text)
        ≡ split_slash base ++ "a2a" ∷ fingerprint ∷ name ∷ "rpc" ∷ []
  split_slash-url f n =
      ap (λ t. split_slash (base <> t)) parted
      ∙ split_slash-append base _
      ∙ ap (λ l. split_slash base ++ l)
          (split_slash-append "a2a" (fingerprint <> "/" <> name <> "/" <> "rpc")
            ∙ ap (◌∷◌ "a2a") (
                split_slash-append fingerprint (name <> "/" <> "rpc")
                ∙ rw (split_slash-part fingerprint f) (
                    ap (◌∷◌ fingerprint)
                      (split_slash-append name "rpc" ∙ rw (split_slash-part name n) refl))))
    where
      parted : path_text ≡ "/" <> "a2a" <> "/" <> fingerprint <> "/" <> name <> "/" <> "rpc"
      parted = texts_assoc "/" "a2a/" _ ∙ ap (λ t. "/" <> t) (texts_assoc "a2a" "/" _)

reverse_onto-append :
    (xs ys zs : List String) → reverse_onto (xs ++ ys) zs ≡ reverse_onto ys (reverse_onto xs zs)
reverse_onto-append [] ys zs = refl
reverse_onto-append (x ∷ xs) ys zs = reverse_onto-append xs ys (x ∷ zs)

pair_in-url :
    (xs : List String) (fingerprint name : String)
    → pair_in (reverse_onto (xs ++ "a2a" ∷ fingerprint ∷ name ∷ "rpc" ∷ []) [])
      ≡ some (fingerprint, name)
pair_in-url xs fingerprint name =
    ap pair_in (reverse_onto-append xs ("a2a" ∷ fingerprint ∷ name ∷ "rpc" ∷ []) [])

-- An explicit URL of the gateway's form gives the pair back.
address_from_url-url :
    (base fingerprint name : String)
    → NoSlash fingerprint
    → NoSlash name
    → address_from_url (base <> "/a2a/" <> fingerprint <> "/" <> name <> "/rpc")
      ≡ explicit
          (base <> "/a2a/" <> fingerprint <> "/" <> name <> "/rpc")
          (some (fingerprint, name))
unfolding address_from_url
address_from_url-url base fingerprint name f n =
    ap (explicit (base <> path_text base fingerprint name)) {y = some (fingerprint, name)} (
      rw (rstrip_slash-url base fingerprint name, split_slash-url base fingerprint name f n)
        (pair_in-url (split_slash base) fingerprint name))

module _ (site : Site) (now : ℕ) (url : String) (a : AgentSummary) where
  abbrev pub given_out : String
  given_out = (describe_agent site now url a).a2a_endpoint

  -- For an agent whose name registration accepts and whose provider's fingerprint has no slash, the
  -- endpoint that the docent gives out, the URL of the interface on the agent card, and the URL that a
  -- delegating agent resolves from the agent's row of the roster are one text, whatever slashes the
  -- gateway's own URL ends in; and that text, written into a configuration by hand, is read back as
  -- the provider's fingerprint and the agent's name.
  pub addresses_agree :
      valid_name a.name ≡ true
      → NoSlash (site.provider_fingerprint a.provider_key)
      → (map
            (λ i. i.url)
            (interfaces site.provider_fingerprint url
              (record { provider_key = a.provider_key; name = a.name }))
          ≡ given_out ∷ [])
        × (rpc_url (rstrip_slash url) (row_of (entry_of site.provider_fingerprint a)) ≡ given_out)
        × (address_from_url given_out
            ≡ explicit given_out (some (site.provider_fingerprint a.provider_key, a.name)))
  unfolding interfaces describe_agent
  addresses_agree valid f = (
    refl,
    refl,
    address_from_url-url (rstrip_slash url) (site.provider_fingerprint a.provider_key) a.name f
        (valid_name-NoSlash a.name valid),
  )
