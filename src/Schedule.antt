-- ===== src/Schedule.antt =====
-- backend/app/services/churn_schedule.py: the permanent schedule of the churn export.
pub mod Clock
pub mod Config
pub mod Control
pub mod Jobs
pub mod Receipts
pub mod Lifecycle
