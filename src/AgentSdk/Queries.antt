-- ===== src/AgentSdk/Queries.antt =====
-- The questions of `SoukProvider`: `thread_messages`, `_resolve_query` and `_fail_pending_queries`.
-- The futures stand in a list and `pending` names them by their place. `thread_messages` is cut at
-- its `await`; the query id is `secrets.token_hex(8)`, and comes as an argument.
pub mod Laws
pub mod Waiting
use agent_souk_server.Base.{
  ℕ, zero, suc, String, ◌<>◌, Option, none, some, List, [], ◌∷◌, ◌++◌, if◌then◌else◌, length,
}
use agent_souk_server.Base.Json.{
  pos, Json, null, int, str, arr, obj, nil, Fields, end, field, get, is_null, truthy, hashable,
}
use agent_souk_server.Base.Dict.{Dict, lookup, insert, erase}

-- A future: not done, done with a result or an exception, or cancelled when its wait ended.
pub data Future : Type 0 where
  open_yet : Future
  result : Json → Future
  exception : String → Future
  dropped : Future

pub record Link : Type 0 where
  pub outbound : List Fields
  pub pending : Dict ℕ
  pub futures : List Future

abbrev pub send : Fields → Link → Link
send frame l = record l { outbound = l.outbound ++ frame ∷ [] }

abbrev pub limit_json : Option ℕ → Json
limit_json none = null
limit_json (some n) = int (pos n)

unfoldable pub query_frame : String → String → Option ℕ → Fields
query_frame id thread limit = field "type" (str "query") (
    field "queryId" (str id) (
      field "method" (str "thread_messages") (
        field "params" (obj (field "threadId" (str thread) (field "limit" (limit_json limit) end)))
          end)))

-- `thread_messages` up to its `await`.
unfoldable pub thread_messages : String → String → Option ℕ → Link → Link
unfolding query_frame
thread_messages id thread limit l = send (query_frame id thread limit) (record l {
  pending = insert id (length l.futures) l.pending;
  futures = l.futures ++ open_yet ∷ [];
})

-- How the wait ends: by the future, after `QUERY_TIMEOUT_SECONDS`, or cancelled from outside.
pub data Wake : Type 0 where
  resumed : Future → Wake
  deadline cancelled : Wake

-- What the agent gets: its messages, a `SoukQueryFailed`, or its own cancellation.
pub data Reply : Type 0 where
  messages : Json → Reply
  query_failed : String → Reply
  no_reply : Reply

abbrev pub reply_of : String → Wake → Reply
reply_of thread (resumed (result v)) = messages v
reply_of thread (resumed (exception why)) = query_failed why
reply_of thread (resumed _) = no_reply
reply_of thread deadline =
    query_failed ("souk did not answer thread_messages(" <> thread <> ") in 30s")
reply_of thread cancelled = no_reply

abbrev pub set_done : Future → Future → Future
set_done f open_yet = f
set_done f (result v) = result v
set_done f (exception why) = exception why
set_done f dropped = dropped

abbrev pub settle_at : ℕ → Future → List Future → List Future
settle_at i f [] = []
settle_at zero f (g ∷ gs) = set_done f g ∷ gs
settle_at (suc i) f (g ∷ gs) = g ∷ settle_at i f gs

-- The rest of `thread_messages`, its `finally` included; a wait that ends otherwise cancels its
-- future.
unfoldable pub thread_messages_rest : String → ℕ → String → Wake → Link → Reply × Link
thread_messages_rest id i thread wake l = (
  reply_of thread wake,
  record l { pending = erase id l.pending; futures = settle_at i dropped l.futures },
)

module _ (text : Json → String) where
  -- What the frame settles a future with; `text` is Python's `str`.
  abbrev pub outcome_of : Fields → Future
  outcome_of frame =
      if is_null (get "error" frame)
      then result (if truthy (get "result" frame) then get "result" frame else arr nil)
      else exception (text (get "error" frame))

  abbrev pub resolve_at : Option ℕ → Future → Link → Link
  resolve_at none f l = l
  resolve_at (some i) f l = record l { futures = settle_at i f l.futures }

  abbrev pub resolve_id : Json → Future → Link → Option Link
  resolve_id (str id) f l = some (resolve_at (lookup id l.pending) f l)
  resolve_id v f l = if hashable v then some l else none

  -- `none` is the `TypeError` of an id that has no hash.
  unfoldable pub resolve_query : Fields → Link → Option Link
  resolve_query frame l = resolve_id (get "queryId" frame) (outcome_of frame) l

abbrev pub fail_each : String → Dict ℕ → List Future → List Future
fail_each why [] fs = fs
fail_each why ((id, i) ∷ d) fs = fail_each why d (settle_at i (exception why) fs)

unfoldable pub fail_pending_queries : String → Link → Link
fail_pending_queries why l = record l { pending = []; futures = fail_each why l.pending l.futures }
