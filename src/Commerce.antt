-- ===== src/Commerce.antt =====
-- apps/web/lib: the commerce control plane, from the conversation's memory to the payment rails.
pub mod Session
pub mod Dialogue
pub mod Step
pub mod Recommend
pub mod Select
pub mod Quote
pub mod Approve
pub mod Pay
pub mod Verify
pub mod AgentPay
pub mod Confirm
pub mod Fulfil
pub mod Tamper
pub mod Shop
pub mod Services
pub mod Webhook
pub mod Life
