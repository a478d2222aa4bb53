-- ===== src/Base/Text.antt =====
-- Python's `str` methods where the code walks a text: `split("/")`, `rstrip("/")`, `removeprefix`.
use Prim.Native.Char.{Char, code}
use Prim.Native.String.{String, [], ◌∷◌, compare}
use Prim.Native.String.{◌++◌ as ◌<>◌}
use mathlib.Core.Path.{◌≡◌, refl, sym, ap, ◌∙◌}
use mathlib.Core.Logic.{inl, inr}
use mathlib.Core.Bool.{Bool, true, false, ◌&&◌}
use mathlib.Core.Option.{Option, none, some}
use mathlib.Core.List.{List, [], ◌∷◌, ◌++◌}
use text.Mathlib.Text.{is_lt}
use text.Mathlib.TextLemmas.{nil-append, cons-append}
use agent_souk_server.Base.Tests.{eqb, if◌then◌else◌, Bool-cases}

abbrev pub is_slash : Char → Bool
is_slash c = eqb (code c) 47

-- The first character joins the first part.
abbrev pub onto : Char → List String → List String
onto c [] = (c ∷ []) ∷ []
onto c (w ∷ ws) = (c ∷ w) ∷ ws

-- `s.split("/")`
abbrev pub split_slash : String → List String
split_slash [] = [] ∷ []
split_slash (c ∷ s) = let rest = split_slash s in if is_slash c then [] ∷ rest else onto c rest

abbrev pub is_empty : String → Bool
is_empty [] = true
is_empty (c ∷ s) = false

abbrev drop_slash : Char → String → String
drop_slash c r = if is_empty r && is_slash c then [] else c ∷ r

-- `s.rstrip("/")`
abbrev pub rstrip_slash : String → String
rstrip_slash [] = []
rstrip_slash (c ∷ s) = drop_slash c (rstrip_slash s)

abbrev pub NoSlash : String → Type 0
NoSlash [] = Unit
NoSlash (c ∷ s) = (is_slash c ≡ false) × NoSlash s

after_slash : (s : String) → split_slash ("/" <> s) ≡ "" ∷ split_slash s
after_slash s =
    ap split_slash (cons-append "/" [] s) ∙ ap (λ t. split_slash ("/" ∷ t)) (nil-append s)

-- A part without a slash is split off whole.
pub split_slash-part : (w : String) → NoSlash w → split_slash w ≡ w ∷ []
split_slash-part [] h = refl
split_slash-part (c ∷ w) h = rw (h.0) (ap (onto c) (split_slash-part w h.1))

is_nil : List String → Bool
is_nil [] = true
is_nil (w ∷ ws) = false

onto_filled : (c : Char) (ws : List String) → is_nil (onto c ws) ≡ false
unfolding is_nil
onto_filled c [] = refl
onto_filled c (w ∷ ws) = refl

split_slash_filled : (s : String) → is_nil (split_slash s) ≡ false
unfolding is_nil
split_slash_filled [] = refl
split_slash_filled (c ∷ s) = elim (Bool-cases (is_slash c)) [
  | inl e ↦ rw e refl
  | inr e ↦ rw e (onto_filled c (split_slash s))
]

onto-append :
    (c : Char) (s t : String)
    → onto c (split_slash s ++ split_slash t) ≡ onto c (split_slash s) ++ split_slash t
unfolding is_nil
onto-append c s t = parts (split_slash s) (split_slash_filled s)
  where
    parts :
        (ws : List String)
        → is_nil ws ≡ false
        → onto c (ws ++ split_slash t) ≡ onto c ws ++ split_slash t
    parts [] h = cc
    parts (w ∷ ws) h = refl

-- Wherever a text is cut at a slash, splitting goes part by part.
pub split_slash-append :
    (s t : String) → split_slash (s <> "/" <> t) ≡ split_slash s ++ split_slash t
split_slash-append [] t = rw nil-append (after_slash t)
split_slash-append (c ∷ s) t = elim (Bool-cases (is_slash c)) [
  | inl e ↦ rw (cons-append, e) (ap (◌∷◌ "") (split_slash-append s t))
  | inr e ↦ rw (cons-append, e) (ap (onto c) (split_slash-append s t) ∙ onto-append c s t)
]

rstrip_slash-filled :
    (s t : String)
    → is_empty (rstrip_slash t) ≡ false
    → (rstrip_slash (s <> t) ≡ s <> rstrip_slash t) × (is_empty (s <> rstrip_slash t) ≡ false)
rstrip_slash-filled [] t h = (
  ap rstrip_slash (nil-append t) ∙ sym (nil-append (rstrip_slash t)),
  ap is_empty (nil-append (rstrip_slash t)) ∙ h,
)
rstrip_slash-filled (c ∷ s) t h =
    let (e, f) = rstrip_slash-filled s t h in
    (
      ap rstrip_slash (cons-append c s t)
          ∙ ap (drop_slash c) e
          ∙ filled c (s <> rstrip_slash t) f
          ∙ sym (cons-append c s (rstrip_slash t)),
      ap is_empty (cons-append c s (rstrip_slash t)),
    )
  where
    filled : (d : Char) (r : String) → is_empty r ≡ false → drop_slash d r ≡ d ∷ r
    filled d r g = rw g refl

-- What follows a prefix, in a text that starts with it.
abbrev pub after_prefix : String → String → Option String
after_prefix [] s = some s
after_prefix (c ∷ p) [] = none
after_prefix (c ∷ p) (d ∷ s) =
    let rest = after_prefix p s in if eqb (code c) (code d) then rest else none

-- `s.removeprefix(prefix)`
abbrev pub remove_prefix : String → String → String
remove_prefix prefix s = elim (after_prefix prefix s) [ none ↦ s | some rest ↦ rest ]

-- `sep.join(words)`
abbrev pub join : String → List String → String
join sep [] = ""
join sep (w ∷ []) = w
join sep (w ∷ v ∷ ws) = w <> sep <> join sep (v ∷ ws)

abbrev insert_name : String → List String → List String
insert_name s [] = s ∷ []
insert_name s (t ∷ ts) = if is_lt (compare t s) then t ∷ insert_name s ts else s ∷ t ∷ ts

-- `sorted(names)`
abbrev pub sorted : List String → List String
sorted [] = []
sorted (s ∷ ss) = insert_name s (sorted ss)

-- What ends in a text with no slash at its end keeps that end.
pub rstrip_slash-append :
    (s t : String) → is_empty (rstrip_slash t) ≡ false → rstrip_slash (s <> t) ≡ s <> rstrip_slash t
rstrip_slash-append s t h = (rstrip_slash-filled s t h).0
