-- ===== src/Web.antt =====
-- web/handler.go: the pages of the dashboard behind a login.
pub mod Sessions
pub mod Pages
pub mod Templates
