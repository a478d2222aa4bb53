-- ===== src/Client/Tests.antt =====
-- The client SDK's theorems at a small roster and a short stream.
use agent_souk_server.Client.{Row, Ids}
use agent_souk_server.Base.{String, true, none}
use agent_souk_server.Base.Json.{null, str, Fields, end, field}

abbrev pub poet : String → Row
poet key = record {
  provider_key = key;
  fingerprint = "fp";
  name = "poet";
  description = "";
  online = true;
  provider_name = none;
}

abbrev started : Fields
started =
    field "type" (str "RUN_STARTED") (field "threadId" (str "t2") (field "runId" (str "r2") end))

abbrev finished : Fields
finished = field "type" (str "RUN_FINISHED") end

abbrev no_ids : Ids
no_ids = record { last_thread_id = null; last_run_id = null }
