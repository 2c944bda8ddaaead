-- ===== src/Proxy.antt =====
-- internal/proxy/proxy.go: the gate in front of the upstreams.
pub mod Handler
pub mod Flat
pub mod Metered
pub mod Serve
pub mod Lifecycle
pub mod Cases
pub mod Gate
pub mod Routing
pub mod Prices
pub mod Counting
pub mod Anonymous
pub mod Answers
pub mod Cors
pub mod Statuses
pub mod Visits
pub mod Enrollment
pub mod Limits
pub mod Settlement
