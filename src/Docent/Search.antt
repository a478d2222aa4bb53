-- ===== src/Docent/Search.antt =====
-- What `search_agents` finds, from the words of an agent.
use agent_souk_server.Docent.{AgentSummary, Site}
use agent_souk_server.Base.{
  ℕ, String, ◌==◌, ◌≡◌, ◌⊎◌, Bool, false, ◌&&◌, ◌||◌, Option, none, some, List, [], ◌∷◌, ◌++◌, map,
  leb, if◌then◌else◌, select,
}
use agent_souk_server.Base.Json.{Json, null, arr, obj, Items, get_field, to_list}
use agent_souk_server.Base.Text.{join}

-- A skill whose tags, if it has any, are a list; what is no dict is passed over.
abbrev pub IsReadable : Json → Type 0
IsReadable (obj fs) =
    (get_field "tags" fs ≡ none)
    ⊎ ((get_field "tags" fs ≡ some null) ⊎ ((xs : Items) × (get_field "tags" fs ≡ some (arr xs))))
IsReadable v = Unit

abbrev tags_in : Option Json → List Json
tags_in (some (arr xs)) = to_list xs
tags_in v = []

abbrev pub any_of : (String → Bool) → List String → Bool
any_of p [] = false
any_of p (w ∷ ws) = p w || any_of p ws

module _ (site : Site) where
  abbrev said : Option Json → String
  said none = ""
  said (some v) = site.text v

  -- The name, the description and the tags of each skill.
  abbrev pub words_of : List Json → List String
  words_of [] = []
  words_of (obj fs ∷ skills) =
      said (get_field "name" fs)
        ∷ said (get_field "description" fs)
        ∷ map site.text (tags_in (get_field "tags" fs))
      ++ words_of skills
  words_of (v ∷ skills) = words_of skills

  -- All that an agent says of itself has the phrase in it, or one of its words of three letters.
  abbrev pub is_found : String → AgentSummary → Bool
  is_found needle a =
      let t = site.lower (join " " (a.name ∷ a.description ∷ words_of a.skills)) in
      site.contains needle t
      || any_of (λ w. leb 3 (site.len w) && site.contains w t) (site.split needle)

  module _ (now : ℕ) (url query : String) (ags : List AgentSummary) where
    abbrev pub wanted_by : String → List AgentSummary
    wanted_by needle = if needle == "" then ags else select (is_found needle) ags
