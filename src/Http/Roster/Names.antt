-- ===== src/Http/Roster/Names.antt =====
-- A name that registration accepts fits into a path.
use Prim.Native.Char.{Char}
use Prim.Native.String.{[], ◌∷◌}
use agent_souk_server.Http.Roster.{is_name_char, all_name_chars, valid_name}
use agent_souk_server.Base.{String, ◌≡◌, refl, Bool, true, false, ◌&&◌, [], ◌∷◌, arith}
use agent_souk_server.Base.Text.{is_slash, NoSlash}

name_char-is_slash : (c : Char) → is_name_char c ≡ true → is_slash c ≡ false
name_char-is_slash c h = ground arith

both : (a b : Bool) → (a && b) ≡ true → (a ≡ true) × (b ≡ true)
both true b h = (refl, h)
both false b h = cc

all_name_chars-NoSlash : (s : String) → all_name_chars s ≡ true → NoSlash s
all_name_chars-NoSlash [] h = tt
all_name_chars-NoSlash (c ∷ s) h =
    let (first, rest) = both (is_name_char c) (all_name_chars s) h in
    (name_char-is_slash c first, all_name_chars-NoSlash s rest)

pub valid_name-NoSlash : (name : String) → valid_name name ≡ true → NoSlash name
unfolding valid_name
valid_name-NoSlash name h = all_name_chars-NoSlash name (both _ (all_name_chars name) h).1
