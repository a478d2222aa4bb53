-- ===== src/Bridge/Tests.antt =====
-- The theorem on the bridge's answers at a short completion.
use agent_souk_server.Bridge.{Bridge, handshake, refused, Llm, serve_one, on_frame}
use agent_souk_server.Bridge.Answers.{AreChunks, IsLast, serve_one-Ends}
use agent_souk_server.Bridge.Connection.{
  Tick, receives, task_ends, died, run_ticks, serve_connection,
}
use agent_souk_server.Base.{String, ◌≡◌, refl, Option, some, List, [], ◌∷◌, ◌++◌}
use agent_souk_server.Base.Json.{Json, null, str, obj, Fields, end, field}

-- A handler that gives one chunk and then refuses.
abbrev llm : Llm
llm = record {
  Delivered = Fields;
  validate = λ frame. some frame;
  handler = λ d. (null ∷ [], refused (str "no budget"));
}

serve_one-Ends_example :
    (fs : List Fields) × (final : Fields) × (serve_one llm (str "r1") end ≡ fs ++ final ∷ [])
    × AreChunks (str "r1") (null ∷ []) fs
    × IsLast (str "r1") "error" final
serve_one-Ends_example = serve_one-Ends llm (str "r1") end (λ d e. cc)

abbrev local_bridge : Bridge
local_bridge = record {
  public_key = "k";
  offering = "kyok";
  sign_connect = λ key nonce mine names. "sig";
}

abbrev challenge : Option Json
challenge = some (obj (field "type" (str "challenge") (field "nonce" (str "n") end)))

abbrev welcome : Option Json
welcome = some (obj (field "type" (str "welcome") end))

abbrev asks : String → Tick
asks id =
    receives (some (obj (field "type" (str "completionRequest") (field "requestId" (str id) end))))

-- The second of two tasks is still in flight when a frame raises.
abbrev ticks : List Tick
ticks = asks "r1" ∷ asks "r2" ∷ task_ends 0 ∷ receives (some null) ∷ asks "r3" ∷ []

-- Once the writer has died, the second completion runs on.
still_runs : (serve_connection llm local_bridge "m" challenge welcome ticks died).in_flight ≡ 1 ∷ []
unfolding serve_connection run_ticks on_frame handshake
still_runs = refl
