-- ===== src/Presenter.antt =====
-- The presenter: slide synchronisation and polls over WebSocket connections (presenter/).
pub mod Poll
pub mod Connection
pub mod Broadcast
pub mod Room
pub mod Slides
pub mod Messages
pub mod Visits
pub mod Login
pub mod Wiring
pub mod Assembly
