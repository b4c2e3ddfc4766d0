-- ===== src/Tests.antt =====
-- Values at which the theorems of the library are applied, and runs of the definitions.
mod Fixtures
mod Signin
mod Accounts
mod Answers
mod Uploads
mod Ingestion
mod Refreshes
mod Searches
mod Caches
mod Audit
