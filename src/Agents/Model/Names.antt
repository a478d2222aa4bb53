-- ===== src/Agents/Model/Names.antt =====
-- Which model a configuration names.
use Prim.Native.Char.{code}
use Prim.Native.String.{[], ◌∷◌}
use text.Mathlib.TextLemmas.{nil-append, cons-append}
use agent_souk_server.Base.{String, ◌<>◌, ◌≡◌, ap, none, some, [], ◌∷◌, arith, eqb, if◌then◌else◌}
use agent_souk_server.Base.Text.{after_prefix}

pub after_prefix-append : (p s : String) → after_prefix p (p <> s) ≡ some s
after_prefix-append [] s = ap (after_prefix "") (nil-append s)
after_prefix-append (c ∷ p) s = rw cons-append (kept (after_prefix-append p s))
  where
    kept :
        after_prefix p (p <> s) ≡ some s
        → (if eqb (code c) (code c) then after_prefix p (p <> s) else none) ≡ some s
    kept e = ground arith
