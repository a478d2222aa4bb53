-- ===== src/Gateway/Query/Laws.antt =====
-- The replies of a query that reads nothing.
use agent_souk_server.Gateway.Core.{Python, Souk}
use agent_souk_server.Gateway.Query.{
  Limit, bad, limit_of, params_of, is_method, is_owner, read_thread, answer_query, read_named,
  read_params, run_method, with_id,
}
use agent_souk_server.Base.{String, ◌≡◌, refl, Bool, true, false, Option, none, some}
use agent_souk_server.Base.Json.{Fields, get, as_str}

module _ (py : Python) (core : Souk) (key : String) where
  thread_alike :
      (id thread : String) (limit : Limit) (s t s' t' : core.State)
      → is_owner key (core.get_thread thread s) ≡ false
      → is_owner key (core.get_thread thread t) ≡ false
      → read_thread py core key id thread limit s s' ≡ read_thread py core key id thread limit t t'
  thread_alike id thread bad s t s' t' a b = refl
  thread_alike id thread limit s t s' t' a b = rw (a, b)

  -- In two states of souk where none of the threads is this provider's, whether they are missing or
  -- another's, every query gets the same reply.
  pub answer_query-alike :
      (parsed : Fields) (s t s' t' : core.State)
      → ((thread : String) → is_owner key (core.get_thread thread s) ≡ false)
      → ((thread : String) → is_owner key (core.get_thread thread t) ≡ false)
      → answer_query py core key parsed s s' ≡ answer_query py core key parsed t t'
  unfolding answer_query
  answer_query-alike parsed s t s' t' a b = id_alike (as_str (get "queryId" parsed))
    where
      text_alike :
          (id : String) (limit : Limit) (o : Option String)
          → read_named py core key id limit o s s' ≡ read_named py core key id limit o t t'
      text_alike id limit none = refl
      text_alike id limit (some thread) =
          rw (thread_alike id thread limit s t s' t' (a thread) (b thread))

      params_alike :
          (id : String) (o : Option Fields)
          → read_params py core key id o s s' ≡ read_params py core key id o t t'
      params_alike id none = refl
      params_alike id (some params) =
          text_alike id (limit_of (get "limit" params)) (as_str (get "threadId" params))

      method_alike :
          (id : String) (m : Option Bool)
          → run_method py core key id (get "method" parsed) m parsed s s'
            ≡ run_method py core key id (get "method" parsed) m parsed t t'
      method_alike id none = refl
      method_alike id (some false) = refl
      method_alike id (some true) = params_alike id (params_of (get "params" parsed))

      id_alike :
          (o : Option String)
          → with_id py core key o parsed s s' ≡ with_id py core key o parsed t t'
      id_alike none = refl
      id_alike (some id) =
          rw (method_alike id (is_method core.link_query_methods (get "method" parsed)))
