-- ===== src/Web.antt =====
-- internal/web: the parts of the web layer that are pure functions.
pub mod Export
pub mod Server
