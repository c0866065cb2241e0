-- ===== src/Events.antt =====
-- Events, their routing to subscribers, and their delivery.
pub mod Model
pub mod Bus
pub mod Dispatcher
pub mod Failing
pub mod Dispatching
pub mod Routing
