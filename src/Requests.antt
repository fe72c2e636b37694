-- ===== src/Requests.antt =====
-- New certificate requests (backend/routes_requests.py).
pub mod CsrSubject
pub mod AutoSign
pub mod External
pub mod Generate
