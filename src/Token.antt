-- ===== src/Token.antt =====
-- internal/token: the pool of real tokens, the sticky sessions and the manager over both.
pub mod Pool
pub mod Cache
pub mod Sticky
pub mod Manager
