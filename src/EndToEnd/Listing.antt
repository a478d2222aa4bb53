-- ===== src/EndToEnd/Listing.antt =====
-- From the registration of an agent to a caller that finds it: `register_agents` of the gateway, its
-- roster, `SoukClient.resolve`, and a delegating agent's `resolve_address`.
mod Tests
use agent_souk_server.Http.Roster.{
  RegisterBatchRequest, SoukRoster, entry_of, list_agents, register_agents,
}
use agent_souk_server.Http.Addresses.{row_of}
use agent_souk_server.Docent.{AgentSummary}
use agent_souk_server.Client.{Row, Agent, agent_of, resolved, sole, resolve}
use agent_souk_server.Delegation.{Address, address, address_of, one_row, resolve_address}
use agent_souk_server.Agents.Market.{is_match}
use agent_souk_server.Agents.Market.Selection.{config_of, candidates-matches}
use agent_souk_server.Base.{
  String, ◌<>◌, ◌==◌, eq_iff, ◌≡◌, refl, ap, ◌∙◌, inl, inr, Bool, true, false, ◌&&◌, ◌||◌, some,
  List, [], ◌∷◌, map, arith, Bool-cases, select, All, subst,
}
use agent_souk_server.Base.Text.{rstrip_slash}

abbrev pub is_agent : String → String → AgentSummary → Bool
is_agent key name a = a.name == name && a.provider_key == key

-- What a selection begins with passes the test.
select-head :
    (p : AgentSummary → Bool) (xs : List AgentSummary) (a : AgentSummary) (more : List AgentSummary)
    → select p xs ≡ a ∷ more
    → p a ≡ true
select-head p [] a more e = cc
select-head p (x ∷ xs) a more e = elim (Bool-cases (p x)) [
  | inl q ↦ subst (λ y. p y ≡ true) (cons-head (rw q at e)) q
  | inr q ↦ select-head p xs a more (rw q at e)
]
  where
    cons-head : {y z : AgentSummary} {ys zs : List AgentSummary} → y ∷ ys ≡ z ∷ zs → y ≡ z
    cons-head h = cc

both_equal : (m n j k : String) → (m == n && j == k) ≡ true → (m ≡ n) × (j ≡ k)
both_equal m n j k e = (ground (arith, eq_iff m n), ground (arith, eq_iff m n, eq_iff j k))

module _ (provider_fingerprint : String → String) where
  abbrev pub wire_row : AgentSummary → Row
  wire_row a = row_of (entry_of provider_fingerprint a)

  -- No fingerprint of a listed agent is this key.
  abbrev pub IsApart : String → AgentSummary → Type 0
  IsApart key a = (provider_fingerprint a.provider_key == key) ≡ false

  is_match-is_agent :
      (key name : String) (a : AgentSummary)
      → (key == "") ≡ false
      → IsApart key a
      → is_match name key (wire_row a) ≡ is_agent key name a
  is_match-is_agent key name a k f =
      rw (k, f) (ap (λ b. a.name == name && b) (or_last (a.provider_key == key)))
    where
      or_last : (b : Bool) → (b || false) ≡ b
      or_last true = refl
      or_last false = refl

  matches-listed :
      (key name : String) (ags : List AgentSummary)
      → (key == "") ≡ false
      → All (IsApart key) ags
      → select (is_match name key) (map wire_row ags)
        ≡ map wire_row (select (is_agent key name) ags)
  matches-listed key name [] k f = refl
  matches-listed key name (a ∷ ags) k f =
      rw (is_match-is_agent key name a k (f.0)) (elim (Bool-cases (is_agent key name a)) [
        | inl e ↦ rw e (ap (◌∷◌ (wire_row a)) (matches-listed key name ags k f.1))
        | inr e ↦ rw e (matches-listed key name ags k f.1)
      ])

  -- What the registration of an agent makes of it for a caller of this name and key.
  abbrev pub agent_under : String → String → AgentSummary → Agent
  agent_under key name a = record {
    provider = provider_fingerprint key;
    name = name;
    provider_key = key;
    description = a.description;
    online = a.online;
    provider_name = a.provider_name;
  }

  abbrev pub address_under : String → String → String → Address
  address_under url key name = record {
    url = rstrip_slash url <> "/a2a/" <> provider_fingerprint key <> "/" <> name <> "/rpc";
    provider = some (provider_fingerprint key);
    provider_key = some key;
    agent_name = some name;
  }

  agent_of-agent_under :
      (key name : String) (a : AgentSummary)
      → is_agent key name a ≡ true
      → agent_of (wire_row a) ≡ agent_under key name a
  agent_of-agent_under key name a e =
      let (n, k) = both_equal a.name name a.provider_key key e in
      ap
        (λ x. record {
          provider = provider_fingerprint a.provider_key;
          name = x;
          provider_key = a.provider_key;
          description = a.description;
          online = a.online;
          provider_name = a.provider_name;
        })
        n
      ∙ ap (λ x. agent_under x name a) k

  address_of-address_under :
      (url key name : String) (a : AgentSummary)
      → is_agent key name a ≡ true
      → address_of (rstrip_slash url) (wire_row a) ≡ address_under url key name
  address_of-address_under url key name a e =
      let (n, k) = both_equal a.name name a.provider_key key e in
      ap (λ x. address_under url a.provider_key x) n ∙ ap (λ x. address_under url x name) k

  module _ (souk : SoukRoster) where
    -- When souk takes a registration and then lists one agent of a name under the key that registered,
    -- and that key is not empty and no listed provider's fingerprint, the provider is answered 201 with
    -- the roster; and whoever reads this roster finds that agent under the key, whatever else is
    -- listed: `resolve` gives it, with that name and key and the key's fingerprint as its provider,
    -- and a sub-agent of that name and provider without a URL of its own gets the address of that
    -- fingerprint and name below the URL of the souk.
    pub registered_found :
        (body : RegisterBatchRequest) (name url : String) (ags : List AgentSummary)
        (a : AgentSummary) (s t u : souk.State)
        → souk.register_agents body s ≡ (inr tt, t)
        → souk.list_agents t ≡ (inr ags, u)
        → select (is_agent body.public_key name) ags ≡ a ∷ []
        → (body.public_key == "") ≡ false
        → All (IsApart body.public_key) ags
        → (register_agents provider_fingerprint souk body s
            ≡ (inr (201, map (entry_of provider_fingerprint) ags), u))
          × (resolve name (some body.public_key) (map wire_row ags)
              ≡ resolved (agent_under body.public_key name a))
          × (resolve_address (config_of name body.public_key) url (map wire_row ags)
              ≡ address (address_under url body.public_key name))
    unfolding register_agents resolve resolve_address
    registered_found body name url ags a s t u r l one k f =
        let matched = matches-listed body.public_key name ags k f ∙ ap (map wire_row) one in
        let chosen = select-head (is_agent body.public_key name) ags a [] one in
        (
          rw (r, l) refl,
          ap sole (
                (rw k at (candidates-matches name body.public_key (map wire_row ags)))
                ∙ ap (map agent_of) matched)
              ∙ ap resolved (agent_of-agent_under body.public_key name a chosen),
          ap (one_row (rstrip_slash url)) matched
              ∙ ap address (address_of-address_under url body.public_key name a chosen),
        )
