-- ===== src/Gateway/Handshake/Checks.antt =====
-- What a hello has passed once `_hello_error` finds nothing.
use agent_souk_server.Gateway.Core.{Python}
use agent_souk_server.Gateway.Handshake.{
  is_names, is_filled, names_of, hello_error, llm_hello_error, is_str, texts,
}
use agent_souk_server.Base.{
  String, eq_iff, ◌≡◌, refl, ap, ◌≢◌, ◌↔◌, ◌⊎◌, inl, inr, true, false, not, ◌&&◌, none, List, [],
  ◌∷◌, map, arith, ==_false, all,
}
use agent_souk_server.Base.Json.{
  Json, null, bool, int, float, str, arr, obj, Items, nil, cons, Fields, get, to_list, from_list,
  is_null, is_int, equals_int,
}

-- `isinstance(v, list)`, not empty, of texts only
abbrev pub IsNames : Json → Type 0
IsNames v = (x : String) × (xs : List String) × (v ≡ arr (from_list (map str (x ∷ xs))))

-- The claims that every hello must carry, with its names under `key`.
pub record IsSound (key : String) (claims : Fields) : Type 0 where
  pub version : equals_int (get "version" claims) 3 ≡ true
  pub public_key : (s : String) × (get "publicKey" claims ≡ str s)
  pub nonce : (s : String) × (get "nonce" claims ≡ str s) × (s ≢ "")
  pub names : IsNames (get key claims)

is_str-str : (v : Json) → is_str v ≡ true → (s : String) × (v ≡ str s)
is_str-str (str s) h = (s, refl)
is_str-str null h = cc
is_str-str (bool b) h = cc
is_str-str (int i) h = cc
is_str-str (float x) h = cc
is_str-str (arr xs) h = cc
is_str-str (obj fs) h = cc

is_filled-str : (v : Json) → is_filled v ≡ true → (s : String) × (v ≡ str s) × (s ≢ "")
is_filled-str (str s) h = (s, refl, λ e. ground (arith, eq_iff s ""))
is_filled-str null h = cc
is_filled-str (bool b) h = cc
is_filled-str (int i) h = cc
is_filled-str (float x) h = cc
is_filled-str (arr xs) h = cc
is_filled-str (obj fs) h = cc

all_str-map :
    (xs : Items)
    → all is_str (to_list xs) ≡ true
    → (ss : List String) × (xs ≡ from_list (map str ss))
all_str-map nil h = ([], refl)
all_str-map (cons v xs) h =
    let (s, e) = is_str-str v (ground arith) in
    let (ss, es) = all_str-map xs (ground arith) in (s ∷ ss, ground arith)

map-all_str : (ss : List String) → all is_str (to_list (from_list (map str ss))) ≡ true
map-all_str [] = refl
map-all_str (s ∷ ss) = map-all_str ss

is_names-IsNames : (v : Json) → is_names v ≡ true → IsNames v
is_names-IsNames (arr nil) h = cc
is_names-IsNames (arr (cons v xs)) h =
    let (s, e) = is_str-str v (ground arith) in
    let (ss, es) = all_str-map xs (ground arith) in (s, ss, ground arith)
is_names-IsNames null h = cc
is_names-IsNames (bool b) h = cc
is_names-IsNames (int i) h = cc
is_names-IsNames (float x) h = cc
is_names-IsNames (str s) h = cc
is_names-IsNames (obj fs) h = cc

IsNames-is_names : (v : Json) → IsNames v → is_names v ≡ true
IsNames-is_names v (s, ss, e) = rw e (map-all_str ss)

texts-map : (ss : List String) → texts (to_list (from_list (map str ss))) ≡ ss
texts-map [] = refl
texts-map (s ∷ ss) = ap (◌∷◌ s) (texts-map ss)

-- The names that the socket attaches for are those that the hello lists.
pub names_of-names : (ss : List String) → names_of (arr (from_list (map str ss))) ≡ ss
names_of-names ss = texts-map ss

filled-is_filled : (v : Json) → (s : String) × (v ≡ str s) × (s ≢ "") → is_filled v ≡ true
filled-is_filled v (s, e, ne) = rw e (rw (==_false s "" ne))

sound_tests :
    (key : String) (claims : Fields)
    → IsSound key claims
    → (is_str (get "publicKey" claims) ≡ true)
      × (is_filled (get "nonce" claims) ≡ true)
      × (is_names (get key claims) ≡ true)
sound_tests key claims h = (
  rw (h.public_key.1) refl,
  filled-is_filled (get "nonce" claims) h.nonce,
  IsNames-is_names (get key claims) h.names,
)

module _ (py : Python) where
  -- The LLM provider's hello is accepted exactly when it is sound under `modelNames`.
  pub llm_hello_error-IsSound :
      (claims : Fields) → (llm_hello_error py claims ≡ none) ↔ IsSound "modelNames" claims
  unfolding llm_hello_error
  llm_hello_error-IsSound claims = (
    λ h. record {
      version = ground arith;
      public_key = is_str-str (get "publicKey" claims) (ground arith);
      nonce = is_filled-str (get "nonce" claims) (ground arith);
      names = is_names-IsNames (get "modelNames" claims) (ground arith);
    },
    λ s. let (a, b, d) = sound_tests "modelNames" claims s in ground (arith, s.version),
  )

  -- The provider's hello is accepted exactly when it is sound under `agentNames` and its
  -- `maxConcurrentRuns` is absent, null or an `int`, of which `bool` is a kind.
  pub hello_error-IsSound :
      (claims : Fields)
      → (hello_error py claims ≡ none) ↔ (
          IsSound "agentNames" claims
          × ((get "maxConcurrentRuns" claims ≡ null)
              ⊎ (is_int (get "maxConcurrentRuns" claims) ≡ true)))
  unfolding hello_error
  hello_error-IsSound claims = (
    λ h. (
      record {
        version = ground arith;
        public_key = is_str-str (get "publicKey" claims) (ground arith);
        nonce = is_filled-str (get "nonce" claims) (ground arith);
        names = is_names-IsNames (get "agentNames" claims) (ground arith);
      },
      runs_cases (get "maxConcurrentRuns" claims) (ground arith),
    ),
    λ (s, runs).
        let (a, b, d) = sound_tests "agentNames" claims s in ground (arith, s.version, runs),
  )
    where
      runs_cases :
          (v : Json) → (not (is_null v) && not (is_int v)) ≡ false → (v ≡ null) ⊎ (is_int v ≡ true)
      runs_cases null e = inl refl
      runs_cases v e = inr (ground arith)
