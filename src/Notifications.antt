-- ===== src/Notifications.antt =====
-- app/notifications: subscriptions to areas, episodes, and the delivery of messages.
pub mod Texts
pub mod Messages
pub mod Matching
pub mod Model
pub mod Deliveries
pub mod Episodes
pub mod Areas
pub mod Manage
