-- ===== src/Widgets.antt =====
-- The small elements of the dashboard
-- (assets/static/elements/cloud-dashboard/cloud-dashboard.js): each is a Polymer element with
-- properties, handlers and timers.
pub mod BaseElement
pub mod LoadingButton
pub mod Input
pub mod Dialog
pub mod Animation
pub mod Toggle
pub mod Slider
mod Tests
