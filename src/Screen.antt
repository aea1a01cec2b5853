-- ===== src/Screen.antt =====
-- internal/screen: whether a submission is held. Addresses, operator rules, the content score, and the
-- decision over them.
pub mod Platform
pub mod Addr
pub mod Rules
pub mod Score
pub mod Decide
mod Examples
