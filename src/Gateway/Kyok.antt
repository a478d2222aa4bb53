-- ===== src/Gateway/Kyok.antt =====
-- `SocketLLMProvider` of souk_server/ws_kyok.py. The answer queues stand in a list, each with the
-- request that it was made for, and `answers` names them by their place. A request id comes from
-- `souk.ids.new_id`, and the envelope from `DeliveredCompletion`: both are arguments.
pub mod Streams
pub mod Routing
pub mod Loss
pub mod Relay
pub mod Serving
mod Tests
use agent_souk_server.Base.{
  ℕ, zero, suc, String, Bool, true, false, Option, none, some, List, [], ◌∷◌, ◌++◌, length,
}
use agent_souk_server.Base.Json.{Json, str, Fields, end, field, merge}
use agent_souk_server.Base.Dict.{Dict, lookup, insert, erase}

-- What is raised in the consumer: `CompletionRefused` with its payload, `RuntimeError` with its
-- argument, or the `ValidationError` of a chunk.
pub data Failure : Type 0 where
  completion_refused : Fields → Failure
  runtime_error : Json → Failure
  invalid_chunk : Failure

-- What an answer queue holds.
pub data Item : Type 0 where
  chunk : Fields → Item
  done_mark : Item
  failure : Failure → Item

pub record Stream : Type 0 where
  pub request : String
  pub queue : List Item

pub record SocketLlmProvider : Type 0 where
  pub public_key : String
  pub outbound : List Fields
  pub answers : Dict ℕ
  pub streams : List Stream

unfoldable pub connect_llm : String → SocketLlmProvider
connect_llm key = record { public_key = key; outbound = []; answers = []; streams = [] }

abbrev pub push : Fields → SocketLlmProvider → SocketLlmProvider
push frame p = record p { outbound = p.outbound ++ frame ∷ [] }

-- `complete`: the request goes out at once, and the stream of its answer is the new queue's.
unfoldable pub complete : String → Fields → SocketLlmProvider → SocketLlmProvider
complete request envelope p =
    push
      (merge (field "type" (str "completionRequest") (field "requestId" (str request) end))
        envelope)
      (record p {
        answers = insert request (length p.streams) p.answers;
        streams = p.streams ++ (record { request = request; queue = [] }) ∷ [];
      })

abbrev pub put_item : Item → Stream → Stream
put_item item s = record s { queue = s.queue ++ item ∷ [] }

-- `queue.put_nowait(item)` on the queue at a place
abbrev pub put_at : ℕ → Item → List Stream → List Stream
put_at i item [] = []
put_at zero item (s ∷ ss) = put_item item s ∷ ss
put_at (suc i) item (s ∷ ss) = s ∷ put_at i item ss

abbrev pub fed : Option ℕ → Item → SocketLlmProvider → Bool × SocketLlmProvider
fed none item p = (false, p)
fed (some i) item p = (true, record p { streams = put_at i item p.streams })

unfoldable pub feed : String → Item → SocketLlmProvider → Bool × SocketLlmProvider
feed request item p = fed (lookup request p.answers) item p

abbrev pub disconnected : Item
disconnected = failure (runtime_error (str "LLM provider disconnected mid-response"))

abbrev pub fail_all : Dict ℕ → List Stream → List Stream
fail_all [] ss = ss
fail_all ((request, i) ∷ d) ss = fail_all d (put_at i disconnected ss)

unfoldable pub fail_pending : SocketLlmProvider → SocketLlmProvider
fail_pending p = record p { answers = []; streams = fail_all p.answers p.streams }

-- The `finally` of `_answer_stream`.
unfoldable pub forget : String → SocketLlmProvider → SocketLlmProvider
forget request p = record p { answers = erase request p.answers }

-- How an answer ends for the caller that iterates over it.
pub data StreamEnd : Type 0 where
  completes : StreamEnd
  fails : Failure → StreamEnd
  waits : StreamEnd

module _ {Chunk : Type 0} (validate : Fields → Option Chunk) where
  -- `_answer_stream` over what its queue holds: the chunks that it yields, and how it stands then.
  -- With `gap` the next item does not come in `CHUNK_GAP_TIMEOUT_SECONDS`. `validate` is
  -- `ChatCompletionChunk.model_validate`.
  unfoldable pub answer_stream : Bool → List Item → List Chunk × StreamEnd
  answer_stream true [] =
      ([], fails (runtime_error (str "LLM provider stopped answering mid-completion")))
  answer_stream false [] = ([], waits)
  answer_stream gap (done_mark ∷ items) = ([], completes)
  answer_stream gap (failure why ∷ items) = ([], fails why)
  answer_stream gap (chunk body ∷ items) =
      let (chunks, how) = answer_stream gap items in
      elim (validate body) [ none ↦ ([], fails invalid_chunk) | some c ↦ (c ∷ chunks, how) ]
