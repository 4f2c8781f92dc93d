-- ===== src/Account.antt =====
-- The account as the dashboard holds it (`JSON.parse` of the server's answer), and the mixin and
-- elements about its subscription
-- (assets/static/elements/cloud-dashboard/cloud-dashboard.js).
pub mod Types
pub mod Subscription
pub mod Promo
pub mod Payment
mod Tests
