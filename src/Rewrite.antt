-- ===== src/Rewrite.antt =====
-- server/internal/proxy/rewrite: rewriting of HTML and CSS bodies.
pub mod Tokens
pub mod Entities
pub mod Css
pub mod Values
pub mod Scan
pub mod Document
mod Examples
