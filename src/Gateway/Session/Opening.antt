-- ===== src/Gateway/Session/Opening.antt =====
-- How a provider's connection opens.
use agent_souk_server.Gateway.Wire.{
  Message, Received, Close, policy_violation, equals_str, Hello, gone, closed, greeted,
  receive_hello, receive_frame,
}
use agent_souk_server.Gateway.Core.{Python, Souk}
use agent_souk_server.Gateway.Handshake.{
  names_of, text_of, hello_error, proof_signature, read_proof, challenge_frame,
  collect_connect_proof,
}
use agent_souk_server.Gateway.Provider.{SocketProvider}
use agent_souk_server.Gateway.Session.{
  Flow, served, provider_socket, attached, proved, checked, received_hello,
}
use agent_souk_server.Base.{
  String, ◌≡◌, refl, ◌⊎◌, inl, inr, Option, none, some, List, [], ◌∷◌, Bool-cases,
}
use agent_souk_server.Base.Json.{Json, null, str, Fields, get}

-- The challenge that `attach` is given is the one that was sent.
read_proof-nonce :
    (py : Python) (nonce n proof : String) (o : Option Fields)
    → read_proof py nonce o ≡ inr (n, proof)
    → n ≡ nonce
read_proof-nonce py nonce n proof none h = cc
read_proof-nonce py nonce n proof (some fs) h =
    elim (Bool-cases (equals_str (get "type" fs) "proof")) [
      | inl e ↦ signed (get "signature" fs) (rw e at h)
      | inr e ↦ refused_proof (rw e at h)
    ]
  where
    signed : (v : Json) → proof_signature py nonce v ≡ inr (n, proof) → n ≡ nonce
    signed (str t) q = cc
    signed null q = cc
    signed v q = cc

    refused_proof :
        ◌≡◌ {A = Close ⊎ (String × String)}
          (inl (record { code = policy_violation; reason = "expected a proof frame" }))
          (inr (n, proof))
        → n ≡ nonce
    refused_proof q = cc

module _ (py : Python) (core : Souk) where
  -- What a served connection has passed.
  pub record IsAdmitted (first second : Received) (souk : core.State) (direct : List Fields)
      (f : Flow core) : Type 0 where
    pub claims : Fields
    pub raw : String
    pub proof : String
    pub after : core.State
    pub greeting : receive_hello py.loads first ≡ greeted claims raw
    pub sound : hello_error py claims ≡ none
    pub nonce : String
    pub fresh : nonce ≡ (core.issue_connect_challenge souk).0
    pub proven :
        read_proof py (core.issue_connect_challenge souk).0 (receive_frame py.loads second)
        ≡ inr (nonce, proof)
    pub attaches :
        core.attach
          (text_of (get "publicKey" claims))
          (names_of (get "agentNames" claims))
          nonce
          (text_of (get "nonce" claims))
          proof
          (core.issue_connect_challenge souk).1
        ≡ (none, after)
    pub answered_first :
        direct
        ≡ challenge_frame py core
            (core.issue_connect_challenge souk).0
            (text_of (get "nonce" claims))
          ∷ []

  module _ (meanwhile : SocketProvider → SocketProvider) (first second : Received)
      (ms : List Message) (souk : core.State) (f : Flow core) where
    attached-IsAdmitted :
        (claims : Fields) (raw nonce proof : String) (direct : List Fields)
        (r : Option String × core.State)
        → receive_hello py.loads first ≡ greeted claims raw
        → hello_error py claims ≡ none
        → read_proof py (core.issue_connect_challenge souk).0 (receive_frame py.loads second)
          ≡ inr (nonce, proof)
        → nonce ≡ (core.issue_connect_challenge souk).0
        → core.attach
            (text_of (get "publicKey" claims))
            (names_of (get "agentNames" claims))
            nonce
            (text_of (get "nonce" claims))
            proof
            (core.issue_connect_challenge souk).1
          ≡ r
        → direct
          ≡ challenge_frame py core
              (core.issue_connect_challenge souk).0
              (text_of (get "nonce" claims))
            ∷ []
        → (attached py core meanwhile claims direct ms r).ending ≡ served f
        → IsAdmitted first second souk (attached py core meanwhile claims direct ms r).direct f
    attached-IsAdmitted claims raw nonce proof direct (some why, after) g e p n a d h = cc
    attached-IsAdmitted claims raw nonce proof direct (none, after) g e p n a d h = record {
      claims = claims;
      raw = raw;
      proof = proof;
      after = after;
      greeting = g;
      sound = e;
      nonce = nonce;
      fresh = n;
      proven = p;
      attaches = a;
      answered_first = d;
    }

    proved-IsAdmitted :
        (claims : Fields) (raw : String) (o : Close ⊎ (String × String))
        → receive_hello py.loads first ≡ greeted claims raw
        → hello_error py claims ≡ none
        → read_proof py (core.issue_connect_challenge souk).0 (receive_frame py.loads second) ≡ o
        → let challenge =
            challenge_frame py core
              (core.issue_connect_challenge souk).0
              (text_of (get "nonce" claims)) in
          (proved py core meanwhile claims ms
              (challenge, o, (core.issue_connect_challenge souk).1)).ending
            ≡ served f
          → let challenge =
              challenge_frame py core
                (core.issue_connect_challenge souk).0
                (text_of (get "nonce" claims)) in
            IsAdmitted first second souk
              (proved py core meanwhile claims ms
                (challenge, o, (core.issue_connect_challenge souk).1)).direct
              f
    proved-IsAdmitted claims raw (inl close) g e p h = cc
    proved-IsAdmitted claims raw (inr (nonce, proof)) g e p h =
        attached-IsAdmitted claims raw nonce proof _ _ g e p
          (read_proof-nonce py (core.issue_connect_challenge souk).0 nonce proof
            (receive_frame py.loads second) p)
          refl refl h

    checked-IsAdmitted :
        (claims : Fields) (raw : String) (o : Option String)
        → receive_hello py.loads first ≡ greeted claims raw
        → hello_error py claims ≡ o
        → (checked py core meanwhile claims o second ms souk).ending ≡ served f
        → IsAdmitted first second souk (checked py core meanwhile claims o second ms souk).direct f
    unfolding collect_connect_proof
    checked-IsAdmitted claims raw (some why) g e h = cc
    checked-IsAdmitted claims raw none g e h =
        proved-IsAdmitted claims raw
          (read_proof py (core.issue_connect_challenge souk).0 (receive_frame py.loads second)) g e
          refl h

    hello-IsAdmitted :
        (w : Hello)
        → receive_hello py.loads first ≡ w
        → (received_hello py core meanwhile w second ms souk).ending ≡ served f
        → IsAdmitted first second souk (received_hello py core meanwhile w second ms souk).direct f
    hello-IsAdmitted gone g h = cc
    hello-IsAdmitted (closed close) g h = cc
    hello-IsAdmitted (greeted claims raw) g h =
        checked-IsAdmitted claims raw (hello_error py claims) g refl h

    -- A connection is served only after a sound hello, a proof frame with a text signature, and an
    -- attach, under exactly the hello's key, names and nonce and this connection's challenge, that souk
    -- did not refuse; the challenge was sent first, and nothing else was written before it.
    pub provider_socket-IsAdmitted :
        (provider_socket py core meanwhile first second ms souk).ending ≡ served f
        → IsAdmitted first second souk
            (provider_socket py core meanwhile first second ms souk).direct
            f
    unfolding provider_socket
    provider_socket-IsAdmitted h = hello-IsAdmitted (receive_hello py.loads first) refl h
