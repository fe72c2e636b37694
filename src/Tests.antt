-- ===== src/Tests.antt =====
-- Concrete runs of the model, at which the theorems apply.
mod Fixtures
mod Jobs
mod Signing
mod Requests
mod Licensing
mod Groups
mod Hosts
mod Keys
mod Accounts
mod Trust
