-- ===== src/Lib.antt =====
-- The gateway of AgentSoukServer and the programs at the other end of its sockets.
--
-- A souk lists agents. Their providers connect to the gateway by a socket, `/ws/provider`, are
-- offered runs on it, report events and ask for threads; providers of language models do the same
-- on `/ws/kyok`, where completions are relayed. A docent tells visitors what is listed. Over HTTP,
-- providers register, callers read the roster and run agents, and an agent's completions are
-- relayed. The client SDK and the pydantic-ai agent turn names into addresses.
--
-- Base holds what all parts share: lists and dicts over native numbers, and the values that
-- `json.loads` gives, with what Python asks of them, and the methods of `str` that walk a text.
--
-- Gateway is souk_server. Gateway/Wire.antt is ws_common.py (frames, the hello, the writer of a
-- socket in Gateway/Wire/Writer.antt). Gateway/Handshake.antt is handshake.py with the checks of
-- both hellos and `collect_connect_proof`. Gateway/Provider.antt is `SocketProvider` of
-- ws_provider.py, Gateway/Query.antt its `_answer_query`, Gateway/Session.antt its
-- `provider_socket` and `_watch_registration`. Gateway/Kyok.antt is `SocketLLMProvider` of
-- ws_kyok.py and Gateway/Kyok/Relay.antt its `kyok_socket`. The submodules below these hold the
-- proofs.
--
-- Http is the HTTP surface of souk_server: Http.antt is deps.py, with an error of souk as a value
-- and a call of souk as a function of its state; Http/Routes.antt is api_a2a.py and api_agui.py,
-- Http/Roster.antt api_registry.py, api_health.py and their models in models.py, and
-- Http/Completions.antt api_llm_bridge.py with souk_agent_sdk/kyok_auth.py, the end that calls it.
--
-- AgentSdk is souk-agent-sdk/souk_agent_sdk/client.py: its handshake and its trust in a souk, the
-- questions an agent asks, and the frames it answers; AgentSdk/Identity.antt is identity.py beside
-- it, whose chains of actors travel with delegated calls, and AgentSdk/Registration.antt is
-- `register`. Bridge is souk-client-sdk/souk_client_sdk/kyok_bridge.py, and Client is client.py
-- beside it. EndToEnd composes both ends of a socket, and of an HTTP route (Tokens.antt and
-- Listing.antt in it). Docent is souk_server/mcp_docent.py. Delegation is resolve.py of
-- providers/pydantic-ai-agent/pydantic_ai_agent, Delegation/Calls.antt the loop of its
-- sub_agent_tool.py, Delegation/Tool.antt the whole call with souk_agent_sdk/a2a_client.py, and
-- History its history.py.
--
-- Agents is what a provider runs. Agents/Events.antt has the AG-UI events and their order,
-- Agents/Relay.antt is providers/openai-compat-agent/openai_compat_agent/main.py, Agents/Echo.antt
-- is agent-template/agent_template/main.py, and of providers/pydantic-ai-agent/pydantic_ai_agent
-- Agents/Market.antt is souk_tools.py, Agents/Merge.antt, Agents/Model.antt and Agents/Threads.antt
-- main.py: the queue of a run, its model, and the contexts that the runs of a thread share.
--
-- State is passed along. Code that waits is cut at each `await`: what a wait gives is an argument,
-- so that every interleaving is a sequence of these steps, and the step relations of
-- Gateway/Provider/Steps.antt, Gateway/Kyok/Routing.antt and AgentSdk/Queries/Waiting.antt are all
-- such sequences. A future or a queue is its place in a list, as two holders share it. A connection
-- is the list of the messages that it receives; no loop needs fuel, since each is a recursion on
-- what it reads. What raises is an outcome of its own: an exception out of a loop, or `none`.
--
-- Not in this repository, and so parameters: souk's core, the signatures and payloads of
-- souk_provider_sdk, the runtime that runs agents, the model library, the endpoints that are
-- called, JWTs and hashes, pydantic's validation, `json`, and the methods of Python's `str` that
-- know Unicode. Where a theorem needs what they promise, that is a hypothesis. Numbers of a frame
-- are exact; time is only whether a deadline passed. souk's `report_event` and `finish_run` are
-- taken to return for any frame: an exception of theirs, as of a run id without a hash, is not
-- expressed, nor one of its attach that the gateway does not catch. Not modelled: the transport of
-- HTTP, the waits between connections and `serving` of the bridge, logging, key files,
-- the assembly of the server, the Go and TypeScript programs.
pub mod Base
pub mod Gateway
pub mod Http
pub mod AgentSdk
pub mod EndToEnd
pub mod Docent
pub mod Client
pub mod Delegation
pub mod History
pub mod Bridge
pub mod Agents
