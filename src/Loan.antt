-- ===== src/Loan.antt =====
-- backend/app/modules/loan: origination, workflow and servicing.
pub mod Workflow
pub mod Products
pub mod Service
pub mod Schedule
pub mod Repayment
pub mod Servicing
pub mod Analysis
pub mod History
