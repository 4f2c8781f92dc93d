-- ===== src/Util.antt =====
-- The dashboard's utility module (assets/static/elements/cloud-dashboard/cloud-dashboard.js,
-- bundle module 5).
pub mod Random
pub mod Uuid
pub mod Language
pub mod Debounce
pub mod Dates
mod Tests
