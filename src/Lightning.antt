-- ===== src/Lightning.antt =====
-- internal/payment/lightning: the Lightning backend.
pub mod Services
pub mod Client
pub mod Token
pub mod Verifier
pub mod Credential
pub mod Enrollment
pub mod Interface
pub mod AntiReplay
pub mod Accepts
pub mod Challenge
pub mod Credentials
pub mod StakeReplay
pub mod Settlement
pub mod Race
pub mod StakeRace
pub mod Dial
