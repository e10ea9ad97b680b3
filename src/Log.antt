-- ===== src/Log.antt =====
-- The parts of app/db.py: the classification of logged requests, the charts and the tables.
pub mod Status
pub mod Charts
pub mod Store
