-- ===== src/Jobs.antt =====
-- The certificate request jobs: backend/routes_jobs.py, backend/routes_signing.py and the completion
-- path of backend/app.py, one child for each handler.
pub mod Ids
pub mod Access
pub mod Keys
pub mod Evolution
pub mod Sweep
pub mod Regroup
pub mod Cancel
pub mod Completion
pub mod Sign
pub mod Upload
pub mod Revoke
pub mod Delete
pub mod Renew
pub mod Hosts
pub mod History
