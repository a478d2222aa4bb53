-- ===== src/Bridge.antt =====
-- souk-client-sdk/souk_client_sdk/kyok_bridge.py: `KyokBridge`, the LLM provider's end of `/ws/kyok`.
-- `DeliveredCompletion.model_validate`, the handler (the caller's, or the LLM call) and the signature
-- are parameters. A handler is what its stream gives: chunks, then how it ended.
pub mod Answers
pub mod Connection
mod Tests
use agent_souk_server.Gateway.Wire.{equals_str}
use agent_souk_server.Base.{String, Option, none, some, List, [], ◌∷◌, if◌then◌else◌}
use agent_souk_server.Base.Json.{
  pos, Json, int, str, arr, obj, nil, cons, Fields, end, field, get_field, get, truthy,
}

-- What the bridge is told, and what it calls.
pub record Bridge : Type 0 where
  pub public_key : String
  pub offering : String
  pub sign_connect : Json → Json → String → List String → String

abbrev pub context_fields : Option Json → Fields
context_fields none = end
context_fields (some v) = field "context" v end

-- `metadata` for a run; `context` is opaque.
unfoldable pub run_metadata : Bridge → Option Json → Fields
run_metadata b context =
    field "kyok"
      (obj (
        field "llmProvider"
          (obj (field "providerKey" (str b.public_key) (field "name" (str b.offering) end)))
          (context_fields context)))
      end

unfoldable pub hello_frame : Bridge → String → Fields
hello_frame b nonce = field "type" (str "hello") (
    field "version" (int (pos 3)) (
      field "publicKey" (str b.public_key)
        (field "modelNames" (arr (cons (str b.offering) nil)) (field "nonce" (str nonce) end))))

-- How the handshake fails: a frame that does not come, is no dict, or is another; a challenge with no
-- nonce raises `KeyError`.
pub data Failure : Type 0 where
  no_frame not_a_dict expected_challenge no_nonce expected_welcome : Failure

pub record Handshake : Type 0 where
  pub sent : List Fields
  pub failed : Option Failure

abbrev or_empty : Json → Json
or_empty v = if truthy v then v else str ""

abbrev pub proof_frame : String → Fields
proof_frame signature = field "type" (str "proof") (field "signature" (str signature) end)

abbrev pub welcomed : Option Json → Option Failure
welcomed none = some no_frame
welcomed (some (obj fs)) =
    if equals_str (get "type" fs) "welcome" then none else some expected_welcome
welcomed (some _) = some not_a_dict

module _ (b : Bridge) (nonce : String) where
  abbrev pub hello_only : Failure → Handshake
  hello_only why = record { sent = hello_frame b nonce ∷ []; failed = some why }

  abbrev pub proved : Fields → Option Json → Option Json → Handshake
  proved challenge none second = hello_only no_nonce
  proved challenge (some souk_nonce) second = record {
    sent =
        hello_frame b nonce
        ∷ proof_frame (
            b.sign_connect (or_empty (get "soukPublicKey" challenge)) souk_nonce nonce
              (b.offering ∷ []))
        ∷ [];
    failed = welcomed second;
  }

  unfoldable pub handshake : Option Json → Option Json → Handshake
  handshake none second = hello_only no_frame
  handshake (some (obj challenge)) second =
      if equals_str (get "type" challenge) "challenge"
      then proved challenge (get_field "nonce" challenge) second
      else hello_only expected_challenge
  handshake (some _) second = hello_only not_a_dict

-- How a handler's stream ends: by itself, by `CompletionRefused` with its payload, by any other
-- exception with its text, or cancelled.
pub data Finish : Type 0 where
  finished : Finish
  refused : Json → Finish
  failed_with : String → Finish
  cancelled : Finish

abbrev pub chunk_frame : Json → Json → Fields
chunk_frame request body =
    field "type" (str "chunk") (field "requestId" request (field "data" body end))

abbrev error_frame : Json → String → Fields → Fields
error_frame request message more =
    field "type" (str "error") (field "requestId" request (field "message" (str message) more))

abbrev pub last_frame : Json → Finish → List Fields
last_frame request finished = field "type" (str "done") (field "requestId" request end) ∷ []
last_frame request (refused payload) =
    error_frame request "refused by the LLM provider" (field "refusal" payload end) ∷ []
last_frame request (failed_with why) = error_frame request why end ∷ []
last_frame request cancelled = []

abbrev pub stream_frames : Json → List Json → Finish → List Fields
stream_frames request [] how = last_frame request how
stream_frames request (c ∷ chunks) how = chunk_frame request c ∷ stream_frames request chunks how

pub record Llm : Type 1 where
  pub Delivered : Type 0
  pub validate : Fields → Option Delivered
  pub handler : Delivered → List Json × Finish

abbrev ran : Json → List Json × Finish → List Fields
ran request (chunks, how) = stream_frames request chunks how

module _ (llm : Llm) where
  abbrev pub answer : Json → Option llm.Delivered → List Fields
  answer request none = error_frame request "malformed completionRequest" end ∷ []
  answer request (some delivered) = ran request (llm.handler delivered)

  -- `_serve_one`: the frames that it queues, in order.
  unfoldable pub serve_one : Json → Fields → List Fields
  serve_one request frame = answer request (llm.validate frame)

  -- A frame of `_serve_connection`: the task that it starts, none, or an exception out of the loop.
  pub data Turn : Type 0 where
    starts : Json → Fields → Turn
    ignores raises : Turn

  abbrev pub on_request : Option Json → Fields → Turn
  on_request none frame = raises
  on_request (some request) frame = starts request frame

  unfoldable pub on_frame : Option Json → Turn
  on_frame (some (obj frame)) =
      if equals_str (get "type" frame) "completionRequest"
      then on_request (get_field "requestId" frame) frame
      else ignores
  on_frame _ = raises
