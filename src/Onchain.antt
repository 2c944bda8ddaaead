-- ===== src/Onchain.antt =====
-- internal/payment/onchain: the on-chain Bitcoin backend.
pub mod Client
pub mod Verifier
pub mod AntiReplay
pub mod Accepts
pub mod Lost
pub mod Purchase
pub mod Elsewhere
pub mod Race
pub mod Calls
