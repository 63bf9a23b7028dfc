-- ===== src/Tests.antt =====
-- Tests, and each theorem at a concrete input.
mod Sample
mod Fractions
mod Loans
mod Servicing
mod Models
mod Identity
mod Fraud
mod Micro
mod Decisions
mod Requests
mod Tenants
mod Applicants
mod Monitoring
mod Lineage
mod Artifacts
