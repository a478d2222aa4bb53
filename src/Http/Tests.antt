-- ===== src/Http/Tests.antt =====
-- The theorems on the HTTP surface at a small gateway.
use agent_souk_server.Http.{Fault, agent_in_use, kyok_rejected, Call, respond}
use agent_souk_server.Http.Routes.{
  SoukCore, interfaces, agent_card_by_pair, rpc_by_pair, create_thread, run_agent_by_id,
}
use agent_souk_server.Http.Roster.{valid_name, entry_of}
use agent_souk_server.Http.Completions.{Request, KyokCore}
use agent_souk_server.Http.Refusals.{unknown_agent, unknown_agent_refused}
use agent_souk_server.Http.Addresses.{row_of, addresses_agree}
use agent_souk_server.Docent.{AgentSummary, Site, describe_agent}
use agent_souk_server.Delegation.{explicit, rpc_url, address_from_url}
use agent_souk_server.Base.{
  ℕ, suc, String, ◌<>◌, ◌==◌, ◌≡◌, refl, inl, inr, true, false, none, some, [], ◌∷◌, map,
}
use agent_souk_server.Base.Json.{Json, str, Fields}

abbrev scribe : AgentSummary
scribe = record {
  provider_key = "k1";
  name = "scribe-2";
  description = "writes";
  skills = [];
  online = true;
  last_seen_at = 0;
  joined_at = "today";
  provider_name = none;
}

abbrev site : Site
site = record {
  provider_fingerprint = λ key. "fp-" <> key;
  agent_card_path = "/.well-known/agent-card.json";
  strip = λ s. s;
  lower = λ s. s;
  split = λ s. s ∷ [];
  len = λ s. 1;
  chars = λ s. s ∷ [];
  contains = λ s t. s == t;
  text = λ v. "";
}

addresses_agree_example :
    (map
        (λ i. i.url)
        (interfaces site.provider_fingerprint "http://souk//"
          (record { provider_key = "k1"; name = "scribe-2" }))
      ≡ "http://souk/a2a/fp-k1/scribe-2/rpc" ∷ [])
    × (rpc_url "http://souk" (row_of (entry_of site.provider_fingerprint scribe))
        ≡ "http://souk/a2a/fp-k1/scribe-2/rpc")
    × (address_from_url "http://souk/a2a/fp-k1/scribe-2/rpc"
        ≡ explicit "http://souk/a2a/fp-k1/scribe-2/rpc" (some ("fp-k1", "scribe-2")))
unfolding describe_agent valid_name
addresses_agree_example =
    addresses_agree site 0 "http://souk//" scribe refl (refl, (refl, (refl, (refl, (refl, tt)))))

-- A souk without agents, that counts its calls.
abbrev nothing : {A : Type 0} → Fault → Call ℕ A
nothing exc s = (inl exc, suc s)

abbrev empty_souk : SoukCore
empty_souk = record {
  State = ℕ;
  resolve_agent = λ provider name s. (inr none, suc s);
  get_agent = λ agent s. (inr false, suc s);
  create_thread = λ agent metadata. nothing (agent_in_use "");
  get_thread_snapshot = λ id s. (inr none, suc s);
  get_thread_tree = λ id s. (inr none, suc s);
  agent_card = λ agent served. nothing (agent_in_use "");
  handle_rpc = λ agent request. nothing (agent_in_use "");
  run_agent = λ agent body. nothing (agent_in_use "");
}

unknown_agent_refused_example :
    ((fingerprint : String → String) (url : String)
      → respond (agent_card_by_pair empty_souk fingerprint url "fp" "scribe") 0
        ≡ (unknown_agent "fp" "scribe", 1))
    × ((request : Json)
        → respond (rpc_by_pair empty_souk "fp" "scribe" request) 0
          ≡ (unknown_agent "fp" "scribe", 1))
    × ((metadata : Fields)
        → respond (create_thread empty_souk "fp" "scribe" metadata) 0
          ≡ (unknown_agent "fp" "scribe", 1))
    × ((body : Fields)
        → respond (run_agent_by_id empty_souk "fp" "scribe" body) 0
          ≡ (unknown_agent "fp" "scribe", 1))
unknown_agent_refused_example = unknown_agent_refused empty_souk "fp" "scribe" 0 1 refl

-- A souk whose LLM provider refuses while the answer is collected, and that keeps the token and the
-- signature that it was called with.
abbrev refusing : Fault
refusing = kyok_rejected 402 "no credit" (str "budget")

abbrev kyok : KyokCore
kyok = record {
  State = String × String;
  complete = λ token content timestamp signature s. (
    inr (record {
      stream_requested = false;
      collapsed = λ t. (inl refusing, t);
      encoded = [];
      rejected = none;
    }),
    (token, signature),
  );
}

abbrev completion : Request
completion = record { headers = ("authorization", "Bearer tok") ∷ []; content = "{}" }
