-- ===== src/Search.antt =====
-- The search projection: what the search worker writes to OpenSearch.
pub mod Projection
pub mod Requests
pub mod Repair
pub mod Reconciliation
