-- ===== src/Broker.antt =====
-- The broker: it hands out runners to sessions (broker/).
pub mod Store
pub mod Service
pub mod HealthCheck
pub mod Handler
pub mod Main
pub mod Router
