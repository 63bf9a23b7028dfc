-- ===== src/Identity.antt =====
-- backend/app/modules/identity, with backend/app/core/security.py: accounts, roles and sessions.
pub mod Users
pub mod Tokens
pub mod Sessions
pub mod Administration
pub mod Replay
pub mod Once
pub mod Requests
pub mod Catalog
pub mod Creation
pub mod Mfa
pub mod Roles
pub mod Grants
pub mod Admins
