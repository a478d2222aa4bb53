-- ===== src/AgentSdk.antt =====
-- souk-agent-sdk/souk_agent_sdk/client.py: the provider's end of `/ws/provider`.
pub mod Handshake
pub mod Trust
pub mod Provider
pub mod Queries
pub mod Samples
mod Tests
pub mod Identity
pub mod Registration
