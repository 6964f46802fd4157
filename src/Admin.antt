-- ===== src/Admin.antt =====
-- internal/admin: the management API behind the admin secret.
pub mod Http
pub mod Tokens
pub mod Creation
pub mod Reports
pub mod Routes
pub mod Answers
pub mod Answered
