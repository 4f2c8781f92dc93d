-- ===== src/Dialogs.antt =====
-- The dialogs of the dashboard and the mixins through which it shows them
-- (assets/static/elements/cloud-dashboard/cloud-dashboard.js).
pub mod Resolver
pub mod Alert
pub mod Confirm
pub mod Prompt
pub mod Options
pub mod Promo
pub mod Generator
pub mod Notification
pub mod Queue
mod Tests
