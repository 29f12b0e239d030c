-- ===== src/Eventbus.antt =====
-- Package eventbus: signed events, their publishing and their subscribers.
pub mod Json
pub mod Normalize
pub mod Decode
pub mod Event
pub mod Signing
pub mod Wire
pub mod Publisher
pub mod Subscriber
pub mod Dispatcher
pub mod Broadcast
mod Examples
