-- ===== src/EndToEnd.antt =====
-- Both ends of a socket or of a route together: souk_server/ws_provider.py and
-- souk-agent-sdk/souk_agent_sdk/client.py, and the programs around them.
pub mod Offers
pub mod Queries
pub mod Opening
pub mod Completions
pub mod Tokens
pub mod Reports
pub mod Listing
mod Tests
