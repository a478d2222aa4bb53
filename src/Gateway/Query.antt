-- ===== src/Gateway/Query.antt =====
-- `_answer_query` of souk_server/ws_provider.py: one query of a provider, run as a task of its own.
-- It reads souk twice, at its two `await`s. `none` is a task that raised: nothing is answered.
pub mod Reads
pub mod Laws
pub mod Silence
use agent_souk_server.Gateway.Wire.{error_frame}
use agent_souk_server.Gateway.Core.{Python, Souk}
use agent_souk_server.Base.{
  ℕ, zero, suc, ◌-◌, String, ◌<>◌, ◌==◌, Bool, true, false, Option, none, some, List, [], ◌∷◌,
  if◌then◌else◌, length, drop,
}
use agent_souk_server.Base.Json.{
  pos, Json, null, bool, int, str, arr, obj, Fields, end, field, get, from_list, as_str, truthy,
  hashable,
}

-- `messages[-n:]`
abbrev pub last : {A : Type 0} → ℕ → List A → List A
last n xs = drop (length xs - n) xs

-- `limit`: absent, a positive `int`, or refused. `True` is the int 1.
pub data Limit : Type 0 where
  unlimited bad : Limit
  at_most : ℕ → Limit

abbrev pub limit_of : Json → Limit
limit_of null = unlimited
limit_of (int (pos zero)) = bad
limit_of (int (pos (suc n))) = at_most (suc n)
limit_of (bool true) = at_most 1
limit_of _ = bad

-- `parsed.get("params") or {}`, where what is no dict has no `get`
abbrev pub params_of : Json → Option Fields
params_of (obj fs) = some fs
params_of v = if truthy v then none else some end

abbrev pub is_member : String → List String → Bool
is_member s [] = false
is_member s (x ∷ xs) = if x == s then true else is_member s xs

-- `method in QUERY_METHODS`; `none` is the `TypeError` of a value that has no hash.
abbrev pub is_method : List String → Json → Option Bool
is_method methods (str s) = some (is_member s methods)
is_method methods v = if hashable v then some false else none

abbrev pub query_result : String → String → Json → Fields
query_result id key value =
    field "type" (str "queryResult") (field "queryId" (str id) (field key value end))

abbrev pub kept : Limit → List Json → List Json
kept (at_most n) messages = last n messages
kept _ messages = messages

abbrev pub is_owner : String → Option String → Bool
is_owner key none = false
is_owner key (some owner) = owner == key

module _ (py : Python) (core : Souk) (key : String) where
  abbrev pub read_thread : String → String → Limit → core.State → core.State → Option Fields
  read_thread id thread bad s s' =
      some (query_result id "error" (str "limit must be a positive integer"))
  read_thread id thread limit s s' =
      if is_owner key (core.get_thread thread s)
      then some (
          query_result id "result"
            (arr (from_list (kept limit (core.get_thread_messages thread s')))))
      else some (query_result id "error" (str "no such thread for this provider"))

  abbrev read_named : String → Limit → Option String → core.State → core.State → Option Fields
  read_named id limit none s s' =
      some (query_result id "error" (str "thread_messages needs a threadId"))
  read_named id limit (some thread) s s' =
      if thread == ""
      then some (query_result id "error" (str "thread_messages needs a threadId"))
      else read_thread id thread limit s s'

  abbrev read_params : String → Option Fields → core.State → core.State → Option Fields
  read_params id none s s' = none
  read_params id (some params) s s' =
      read_named id (limit_of (get "limit" params)) (as_str (get "threadId" params)) s s'

  abbrev run_method : String → Json → Option Bool → Fields → core.State → core.State → Option Fields
  run_method id method none parsed s s' = none
  run_method id method (some false) parsed s s' =
      some (query_result id "error" (str ("unknown query method " <> py.repr method)))
  run_method id method (some true) parsed s s' =
      read_params id (params_of (get "params" parsed)) s s'

  abbrev with_id : Option String → Fields → core.State → core.State → Option Fields
  with_id none parsed s s' = some (error_frame "query needs a queryId")
  with_id (some id) parsed s s' =
      if id == ""
      then some (error_frame "query needs a queryId")
      else run_method id (get "method" parsed)
          (is_method core.link_query_methods (get "method" parsed)) parsed s s'

  unfoldable pub answer_query : Fields → core.State → core.State → Option Fields
  answer_query parsed s s' = with_id (as_str (get "queryId" parsed)) parsed s s'
