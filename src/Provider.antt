-- ===== src/Provider.antt =====
-- app/multi_provider.py: the providers, their limits and the routing to them.
pub mod Config
pub mod Capacity
pub mod Runtime
pub mod Estimate
pub mod Registry
