-- ===== src/Lib.antt =====
-- The lending, identity, fraud and model-registry core of CreditIQ AI, as a verified model of the
-- Python sources.
--
-- Parts, and how they interact. A request runs in one session of backend/app/db/session.py, bound
-- to a tenant. An operation takes the tables (`Store.Db`) and returns a result with new tables, or
-- an error, upon which the session rolls back. Reads see the rows of the session's tenant only, as
-- the row-level security policies of backend/migrations provide.
--
--   Shared: backend/app/shared/enums.py, the vocabularies and the loan transition graph.
--   Errors: backend/app/core/exceptions.py, errors as values.
--   Store: the models of backend/app/modules/*/models.py and the audit log.
--   Access: backend/app/core/data_scope.py and the caller of backend/app/core/deps.py.
--   Calendar: Python's dates, and `add_months` of backend/app/modules/loan/servicing.py.
--   Decimal: the decimal arithmetic that schedules are computed with, a record of operations, each
--     of which may fail, as the traps of Python's context make it.
--   Float: the floating-point arithmetic of the engine, a record of operations without laws;
--     rounding to an integer fails where Python's `round` raises. The metrics of the registry are
--     integers, infinities or NaN, which its comparisons tell apart.
--   Loan.Workflow: backend/app/modules/loan/workflow.py, the tenant's policy over the graph.
--   Loan.Products, Loan.Service: backend/app/modules/loan/products.py and service.py.
--   Loan.Schedule, Loan.Repayment, Loan.Servicing: backend/app/modules/loan/servicing.py.
--   Loan.Analysis: the endpoint `analyze` of the router with `analyze_loan` of
--     backend/app/modules/credit_intelligence/service.py; the answer of the engine is an argument.
--     Alerts holds what its finding means for a decision.
--   Loan.History: the requests of backend/app/modules/loan/router.py as steps of the tables.
--   Registry: ai-engine/creditiq_ai/model_operations, namely domain.py and
--     lifecycle/state_machine.py (Domain), registry/file_registry.py (File, Moves), promotion and
--     rollback/service.py (Promotion). Table is the specification that Refinement compares the
--     registry with; Unique, Swap, Change, History, Serving and Eligible hold the proofs. The
--     registry keeps its own document, so it shares no state with the tables.
--   Lineage: ai-engine/creditiq_ai/model_operations/lineage/graph.py, on the versions of the
--     registry; a walk has one round more than the graph has versions, which Ancestry shows to be
--     enough.
--   Artifacts: ai-engine/creditiq_ai/model_operations/storage/artifacts.py, the files of the models
--     that the registry describes; Integrity holds the proofs.
--   Identity: backend/app/modules/identity/service.py with backend/app/core/security.py. Users and
--     Tokens hold the data, Sessions the rotation of refresh tokens, Administration the status of
--     accounts, Roles custom roles, Mfa one-time codes; Replay, Once, Admins and Grants the proofs.
--     Catalog is rbac.py with its seeding, Creation the creation of accounts.
--     Requests holds backend/app/core/deps.py and the endpoints under /auth of router.py, with its
--     proofs in Live, Revoked and Challenge.
--     A call that can write and then raise returns its result together with the tables it wrote.
--   Fraud: backend/app/modules/fraud/service.py, which works on the tables of the loans: an alert
--     that blocks an approval (Loan.Service) is dismissed or confirmed there.
--   Organizations: backend/app/modules/organization/service.py and router.py, on the tables of the
--     loans; a suspended tenant stops the requests that Identity.Requests authenticates by an
--     access token. Onboarding is a tenant with its first branch and administrator. Codes and
--     Suspension hold the proofs.
--   Integrations: backend/app/modules/integration/service.py, with its proofs in Scopes.
--   Applicants: backend/app/modules/applicant/service.py. Service and Update hold the profiles,
--     Ledger the transactions, Financials the features for the engine; Rows, Changes and Visibility
--     the proofs. Loans are checked against the same applicants.
--   Decision: ai-engine/creditiq_ai/decision and fraud_intelligence/scoring, one lending decision
--     of a credit and a fraud assessment. Score, Policy, FraudScoring and Engine hold the code;
--     Bounds, Conservative, Safety, Earned, Refusal and Clamp the proofs.
--   Monitoring: ai-engine/creditiq_ai/model_operations/{monitoring, drift, performance, health,
--     alerts}. Drift holds the checks of features and outcomes, Window is the monitor that a
--     decision reports to, Alerts the alerts; Health and Dedup hold the proofs.
--
-- Correspondence. A function of the source has the same name here, without a leading underscore;
-- `_find` is `find_model` and `production` is `current_production`. Names that are new split a
-- function at its statements, such as `move` for the writes of `transition`. Messages with
-- formatted values are kept without the values. Identifiers are numbers that are compared only.
-- Amounts are whole cents in ℤ, which two-place decimals add, subtract and compare exactly; rates,
-- products, quotients and powers go through `Decimal`, so the theorems hold for every precision
-- and rounding of the context. Loops are structural recursions, over the installments or over the
-- rounds left; the walk of Lineage alone has fuel. Time, fresh identifiers and reference numbers
-- are arguments.
-- PyJWT, passlib, pyotp, the cipher and the digests are the fields of `Codec` and `Authenticator`,
-- joblib and the checksum those of `Serializer`, with no laws but those that a theorem states as its
-- hypotheses. Floats are the parameter `Float`.
--
-- Not modelled: HTTP, SQL, hashing and token formats; the order of a query where rows stand in the
-- order of insertion; NumPy, pandas and scikit-learn; the frontend.
pub mod Prelude
pub mod Shared
pub mod Errors
pub mod Store
pub mod Access
pub mod Calendar
pub mod Decimal
pub mod Float
pub mod Loan
pub mod Registry
pub mod Lineage
pub mod Artifacts
pub mod Identity
pub mod Fraud
pub mod Decision
pub mod Monitoring
pub mod Organizations
pub mod Integrations
pub mod Applicants
mod Tests
