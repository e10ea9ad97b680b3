-- ===== src/Auth.antt =====
-- Authentication: app/auth.py and the middleware of app/main.py.
pub mod Boundary
pub mod Throttle
pub mod Keys
