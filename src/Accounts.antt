-- ===== src/Accounts.antt =====
-- User accounts, logins and the gates of the handlers (backend/app.py, backend/routes_auth.py and
-- the user handlers of backend/routes_admin.py).
pub mod Names
pub mod Passwords
pub mod Sessions
pub mod Identity
pub mod Login
pub mod Register
pub mod Admin
pub mod History
pub mod Deleted
pub mod AuthSettings
