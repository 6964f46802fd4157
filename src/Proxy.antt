-- ===== src/Proxy.antt =====
-- internal/proxy: the tap on a response stream, the usage writer and the handler.
pub mod Tap
pub mod Writer
pub mod Exchange
pub mod Handler
pub mod Pipeline
