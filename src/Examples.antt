-- ===== src/Examples.antt =====
-- Tests on concrete inputs.
mod Macaroons
mod Computing
mod Fixtures
mod Gates
mod Tokens
mod Addresses
mod Prices
mod Purchases
mod Metering
mod Tables
mod Enrolling
mod Starting
mod Limits
mod Balancing
mod Settling
mod Funding
mod Serving
mod Counting
mod Escalating
mod Losing
mod Restart
