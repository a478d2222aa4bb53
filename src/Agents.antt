-- ===== src/Agents.antt =====
-- The agents that a provider runs: what their `run_stream` yields. The AG-UI events and the order
-- that they must keep are in Agents/Events.antt.
pub mod Events
pub mod Relay
pub mod Echo
pub mod Market
pub mod Merge
pub mod Model
pub mod Threads
mod Samples
mod Tests
