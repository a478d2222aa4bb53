-- ===== src/Delegation/Addresses.antt =====
-- Which address a sub-agent gets, and that it is the one that the market gives out.
use agent_souk_server.Delegation.{
  SubAgentConfig, Address, Outcome, address, not_listed, ambiguous, is_wanted, address_of, one_row,
  keep, resolve_address, get_address,
}
use agent_souk_server.Client.{Row}
use agent_souk_server.Base.{
  String, ◌≡◌, refl, sym, ◌≢◌, ◌↔◌, Option, none, some, List, [], ◌∷◌, select,
}
use agent_souk_server.Base.Text.{rstrip_slash}

address_inj : {x y : Address} → address x ≡ address y → x ≡ y
address_inj e = cc

not_listed-ne : {a : Address} → not_listed ≡ address a → ⊥
not_listed-ne e = cc

ambiguous-ne : {es : List Row} {a : Address} → ambiguous es ≡ address a → ⊥
ambiguous-ne e = cc

-- Without a URL of its own, a sub-agent has an address exactly if one row of the roster is wanted, and
-- it is that row's.
pub resolve_address_unique :
    (sub : SubAgentConfig) (url : String) (rows : List Row) (a : Address)
    → sub.a2a_url ≡ ""
    → (resolve_address sub url rows ≡ address a) ↔ (
        (row : Row) × (select (is_wanted sub) rows ≡ row ∷ [])
        × (a ≡ address_of (rstrip_slash url) row))
unfolding resolve_address
resolve_address_unique sub url rows a none_given =
    rw none_given (only (select (is_wanted sub) rows), λ (row, e, d). rw (e, d) refl)
  where
    only :
        (xs : List Row)
        → one_row (rstrip_slash url) xs ≡ address a
        → (row : Row) × (xs ≡ row ∷ []) × (a ≡ address_of (rstrip_slash url) row)
    only [] h = absurd (not_listed-ne h)
    only (row ∷ []) h = (row, refl, address_inj (sym h))
    only (r ∷ s ∷ xs) h = absurd (ambiguous-ne h)

-- The first address that is resolved stays: every later `get` gives it, whatever the roster is then,
-- while a failure is not kept and is tried again.
pub get_address-kept :
    (sub : SubAgentConfig) (url : String) (held : Option Address) (rows later : List Row)
    → ((a : Address)
        → (get_address sub url held rows).0 ≡ address a
        → get_address sub url (get_address sub url held rows).1 later ≡ (address a, some a))
      × (((a : Address) → (get_address sub url held rows).0 ≢ address a)
          → get_address sub url (get_address sub url held rows).1 later
            ≡ get_address sub url none later)
unfolding get_address
get_address-kept sub url (some b) rows later =
    (λ a e. λ i. (e i, some (address_inj e i)), λ n. absurd (n b refl))
get_address-kept sub url none rows later = by_outcome (resolve_address sub url rows)
  where
    by_outcome :
        (o : Outcome)
        → ((a : Address) → o ≡ address a → get_address sub url (keep o) later ≡ (address a, some a))
          × (((a : Address) → o ≢ address a)
              → get_address sub url (keep o) later ≡ get_address sub url none later)
    by_outcome (address b) = (λ a e. λ i. (e i, some (address_inj e i)), λ n. absurd (n b refl))
    by_outcome not_listed = (λ a e. absurd (not_listed-ne e), λ n. refl)
    by_outcome (ambiguous rs) = (λ a e. absurd (ambiguous-ne e), λ n. refl)
