-- ===== src/Docent/Lookup.antt =====
-- What the docent's tools find.
use agent_souk_server.Docent.{AgentSummary, Site, AgentEntry, describe_agent, describe_market}
use agent_souk_server.Docent.Tools.{
  found, not_found, ambiguous, is_pair, browse_souk, only_of, describe_agent_tool, agent_resource,
}
use agent_souk_server.Base.{
  ℕ, String, ◌==◌, ◌≡◌, refl, ap, ◌≢◌, ◌↔◌, inl, inr, true, List, [], ◌∷◌, arith, Bool-cases,
  ==_false, length, select, count, length-select,
}

module _ (site : Site) (now : ℕ) (url : String) where
  -- The resource for a pair and the tool asked with a provider, which is not the empty text, give the
  -- same answer, whether anything is found or not.
  pub agent_resource-describe_agent_tool :
      (name provider : String) (ags : List AgentSummary)
      → provider ≢ ""
      → agent_resource site now url provider name ags
        ≡ describe_agent_tool site now url name provider ags
  unfolding agent_resource describe_agent_tool
  agent_resource-describe_agent_tool name provider [] h = rw (==_false provider "" h) refl
  agent_resource-describe_agent_tool name provider (a ∷ ags) h =
      let rest = agent_resource-describe_agent_tool name provider ags h in
      elim (Bool-cases (is_pair site name provider a)) [
        | inl e ↦ rw (==_false provider "" h, e) refl
        | inr e ↦ rw (==_false provider "" h, e) (rw (==_false provider "" h) at rest)
      ]

  -- Asked for a name alone, the docent describes an agent exactly if the roster has one agent of that
  -- name, and then describes that one: it never picks among several.
  pub describe_agent_tool_unique :
      (name : String) (ags : List AgentSummary) (entry : AgentEntry)
      → (describe_agent_tool site now url name "" ags ≡ found entry) ↔ (
          (a : AgentSummary) × (select (λ b. b.name == name) ags ≡ a ∷ [])
          × (describe_agent site now url a ≡ entry))
  unfolding describe_agent_tool
  describe_agent_tool_unique name ags entry =
      (only (select (λ b. b.name == name) ags), λ (a, e, d). rw e (ap found d))
    where
      only :
          (xs : List AgentSummary)
          → only_of site now url xs ≡ found entry
          → (a : AgentSummary) × (xs ≡ a ∷ []) × (describe_agent site now url a ≡ entry)
      only [] h = absurd (not_found-ne h)
        where
          not_found-ne : not_found ≡ found entry → ⊥
          not_found-ne e = cc
      only (a ∷ []) h = (a, refl, found_inj h)
        where
          found_inj : {x y : AgentEntry} → found x ≡ found y → x ≡ y
          found_inj e = cc
      only (a ∷ b ∷ xs) h = absurd (ambiguous-ne h)
        where
          ambiguous-ne : {es : List AgentEntry} → ambiguous es ≡ found entry → ⊥
          ambiguous-ne e = cc

  -- Browsing for who is online gives a market in which all agents are online, as many as the roster
  -- has online.
  pub browse_souk-online :
      (ags : List AgentSummary)
      → ((browse_souk site now url true ags).agent_count ≡ count (λ a. a.online) ags)
        × ((browse_souk site now url true ags).online_count
            ≡ (browse_souk site now url true ags).agent_count)
  unfolding browse_souk describe_market
  browse_souk-online ags = (length-select (λ a. a.online) ags, count-select ags)
    where
      count-select :
          (xs : List AgentSummary)
          → count (λ a. a.online) (select (λ a. a.online) xs) ≡ length (select (λ a. a.online) xs)
      count-select [] = refl
      count-select (x ∷ xs) = ground (arith, count-select xs)
