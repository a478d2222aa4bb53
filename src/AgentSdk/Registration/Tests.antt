-- ===== src/AgentSdk/Registration/Tests.antt =====
-- The theorem on registration at two handles of one name.
use agent_souk_server.AgentSdk.Registration.{Handles, Signer, agents_by_name, register_body}
use agent_souk_server.AgentSdk.Registration.Signed.{elem_name, AreDistinct, register_body-signed}
use agent_souk_server.Base.{String, ◌≡◌, refl, true, none, List, [], ◌∷◌, map}
use agent_souk_server.Base.Json.{pos, end}
use agent_souk_server.Base.Text.{join, sorted}

abbrev handles : Handles
handles = record {
  Handle = String × String;
  name_of = λ h. h.0;
  as_registration =
      λ h. record { name = h.0; description = h.1; agent_card_extra = end; metadata = end };
  name_kept = λ h. refl;
}

abbrev signer : Signer
signer = record { public_key = "k1"; sign_registration = λ names. (join "," names, pos 7) }

abbrev given : List (String × String)
given = ("scribe", "old") ∷ ("clerk", "counts") ∷ ("scribe", "new") ∷ []

register_body-signed_example :
    (let body = register_body handles signer none (agents_by_name handles given) in
      let names = map (λ a. a.name) body.agents in
      ((body.signature, body.timestamp) ≡ signer.sign_registration (sorted names))
      × AreDistinct names
      × (elem_name "clerk" names ≡ true))
register_body-signed_example = register_body-signed handles signer none given "clerk"
