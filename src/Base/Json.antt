-- ===== src/Base/Json.antt =====
-- The Python values that `json.loads` returns, and what the code asks of them: `isinstance`,
-- truth, `dict.get`, and whether a value can be looked up in a dict or a frozenset.
use Prim.Native.Nat.{ℕ, zero}
use Prim.Native.String.{String}
use mathlib.Core.Path.{◌≡◌, refl}
use mathlib.Core.Bool.{Bool, true, false, not}
use mathlib.Core.Option.{Option, none, some}
use mathlib.Core.List.{List, [], ◌∷◌}
use text.Mathlib.Text.{◌==◌}
use agent_souk_server.Base.Tests.{eqb, if◌then◌else◌}

-- `negsuc n` is -(n + 1).
pub data ℤ : Type 0 where
  pos : ℕ → ℤ
  negsuc : ℕ → ℤ

-- A float that is a whole number, which Python holds equal to the int, or any other: a fraction,
-- an infinity or NaN, told apart by a number.
pub data Float : Type 0 where
  whole : ℤ → Float
  other : ℕ → Float

mutual
  pub data Json : Type 0 where
    null : Json
    bool : Bool → Json
    int : ℤ → Json
    float : Float → Json
    str : String → Json
    arr : Items → Json
    obj : Fields → Json

  pub data Items : Type 0 where
    nil : Items
    cons : Json → Items → Items

  pub data Fields : Type 0 where
    end : Fields
    field : String → Json → Fields → Fields

abbrev pub get_field : String → Fields → Option Json
get_field k end = none
get_field k (field j v fs) = if j == k then some v else get_field k fs

-- `d.get(k)`: a missing key reads as `None`.
abbrev pub get : String → Fields → Json
get k end = null
get k (field j v fs) = if j == k then v else get k fs

-- `{**fs, k: v}` for one key
abbrev pub put : String → Json → Fields → Fields
put k v end = field k v end
put k v (field j w fs) = if j == k then field j v fs else field j w (put k v fs)

-- `{**fs, **gs}`
abbrev pub merge : Fields → Fields → Fields
merge fs end = fs
merge fs (field k v gs) = merge (put k v fs) gs

abbrev pub to_list : Items → List Json
to_list nil = []
to_list (cons x xs) = x ∷ to_list xs

abbrev pub from_list : List Json → Items
from_list [] = nil
from_list (x ∷ xs) = cons x (from_list xs)

-- `isinstance(v, str)`, handing the text over
abbrev pub as_str : Json → Option String
as_str (str s) = some s
as_str _ = none

-- A list whose members are all texts.
abbrev pub strings : List Json → Option (List String)
strings [] = some []
strings (str s ∷ xs) = elim (strings xs) [ none ↦ none | some ss ↦ some (s ∷ ss) ]
strings (_ ∷ _) = none

abbrev pub is_null : Json → Bool
is_null null = true
is_null _ = false

-- `isinstance(v, int)`: a `bool` is one.
abbrev pub is_int : Json → Bool
is_int (int _) = true
is_int (bool _) = true
is_int _ = false

abbrev nonzero : ℤ → Bool
nonzero (pos zero) = false
nonzero _ = true

-- `bool(v)`
abbrev pub truthy : Json → Bool
truthy null = false
truthy (bool b) = b
truthy (int i) = nonzero i
truthy (float (whole i)) = nonzero i
truthy (float (other _)) = true
truthy (str s) = not (s == "")
truthy (arr nil) = false
truthy (arr (cons _ _)) = true
truthy (obj end) = false
truthy (obj (field _ _ _)) = true

-- `hash(v)` raises `TypeError` on a list or a dict.
abbrev pub hashable : Json → Bool
hashable (arr _) = false
hashable (obj _) = false
hashable _ = true

-- `v == n` for a whole number n; 3, 3.0 and, at 1 and 0, a `bool` count.
abbrev pub equals_int : Json → ℕ → Bool
equals_int (int (pos k)) n = eqb k n
equals_int (float (whole (pos k))) n = eqb k n
equals_int (bool true) n = eqb 1 n
equals_int (bool false) n = eqb 0 n
equals_int _ n = false

pub to_list-from_list : (xs : List Json) → to_list (from_list xs) ≡ xs
to_list-from_list [] = refl
to_list-from_list (x ∷ xs) = λ i. x ∷ to_list-from_list xs i

pub as_str-some : (v : Json) (t : String) → as_str v ≡ some t → v ≡ str t
as_str-some (str s) t h = cc
as_str-some null t h = cc
as_str-some (bool b) t h = cc
as_str-some (int i) t h = cc
as_str-some (float x) t h = cc
as_str-some (arr xs) t h = cc
as_str-some (obj fs) t h = cc
