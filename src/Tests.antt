-- ===== src/Tests.antt =====
-- Runs of the functions on small inputs, and the theorems at such inputs.
pub mod Chats
pub mod Limits
pub mod Mongo
pub mod Telegram
pub mod Backends
pub mod Accounts
pub mod Readings
pub mod Agents
pub mod Workflows
pub mod Retries
pub mod Bot
pub mod Rules
pub mod Kpis
pub mod Company
