-- ===== src/Http/Completions/Signed.antt =====
-- The signature that an agent puts on a completion is over what the gateway hands to souk.
use agent_souk_server.Http.{Fault, Call, and_then}
use agent_souk_server.Http.Completions.{
  Request, Relay, KyokCore, header, without_bearer, bearer, chat_completions, auth_flow,
  text_or_empty, relayed,
}
use agent_souk_server.Base.{ℕ, String, ◌≡◌, refl, ap, ◌∙◌, inl, inr, false, Option, none, some}
use agent_souk_server.Base.Json.{Json}
use agent_souk_server.Base.Dict.{Dict, insert, lookup-insert}
use agent_souk_server.Base.Text.{after_prefix, remove_prefix}

module _ (kyok : KyokCore) (sha256 : String → String)
    (kyok_call_payload : String → ℕ → String → String) (sign : String → String)
    (decimal : ℕ → String) where
  -- For a request with any headers, whether it carries a bearer token, a bare one or none, the gateway
  -- calls souk for the signed request with a token, the unchanged content, the decimal text of the
  -- time, and a signature over the payload of exactly that token, that time and the hash of that
  -- content.
  pub chat_completions-signed :
      (timestamp : ℕ) (request : Request)
      → (let token = bearer request in
          chat_completions kyok (auth_flow sha256 kyok_call_payload sign decimal timestamp request)
          ≡ and_then
              (kyok.complete token request.content
                (decimal timestamp)
                (sign (kyok_call_payload token timestamp (sha256 request.content))))
              (λ relay. relayed relay))
  unfolding chat_completions auth_flow bearer
  chat_completions-signed timestamp request = λ i.
      and_then (kyok.complete (token_kept i) request.content (time_is i) (signature_is i))
        (λ relay. relayed relay)
    where
      signed : Request
      signed = auth_flow sha256 kyok_call_payload sign decimal timestamp request

      signature : String
      signature = sign (
          kyok_call_payload (remove_prefix "Bearer " (header "authorization" request)) timestamp
            (sha256 request.content))

      timed : Dict String
      timed = insert "x-souk-kyok-timestamp" (decimal timestamp) request.headers

      kept : header "authorization" signed ≡ header "authorization" request
      kept = ap text_or_empty (
          lookup-insert "x-souk-kyok-signature" "authorization" signature timed
          ∙ lookup-insert "x-souk-kyok-timestamp" "authorization" (decimal timestamp)
              request.headers)

      token_kept : bearer signed ≡ bearer request
      token_kept = λ i. without_bearer (kept i) (after_prefix "Bearer " (kept i))

      time_is : header "x-souk-kyok-timestamp" signed ≡ decimal timestamp
      time_is = ap text_or_empty (
          lookup-insert "x-souk-kyok-signature" "x-souk-kyok-timestamp" signature timed
          ∙ lookup-insert "x-souk-kyok-timestamp" "x-souk-kyok-timestamp" (decimal timestamp)
              request.headers)

      same_token :
          (v : String) (o : Option String)
          → elim o [ none ↦ v | some rest ↦ rest ] ≡ without_bearer v o
      same_token v none = refl
      same_token v (some rest) = refl

      signature_is :
          header "x-souk-kyok-signature" signed
          ≡ sign (kyok_call_payload (bearer request) timestamp (sha256 request.content))
      signature_is =
          ap text_or_empty
            (lookup-insert "x-souk-kyok-signature" "x-souk-kyok-signature" signature timed)
          ∙ ap (λ token. sign (kyok_call_payload token timestamp (sha256 request.content)))
              (same_token (header "authorization" request)
                (after_prefix "Bearer " (header "authorization" request)))

module _ (kyok : KyokCore) (request : Request) where
  abbrev completed : Call kyok.State (Relay kyok.State)
  completed =
      kyok.complete (bearer request) request.content (header "x-souk-kyok-timestamp" request)
        (header "x-souk-kyok-signature" request)

  -- The LLM provider refuses before there is a relay, or while the relay collects the whole answer.
  pub data RejectedBy (exc : Fault) (s t : kyok.State) : Type 0 where
    at_once : completed s ≡ (inl exc, t) → RejectedBy exc s t
    while_collapsing :
        (relay : Relay kyok.State) (u : kyok.State)
        → completed s ≡ (inr relay, u)
        → relay.stream_requested ≡ false
        → relay.collapsed u ≡ (inl exc, t)
        → RejectedBy exc s t
