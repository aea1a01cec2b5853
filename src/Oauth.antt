-- ===== src/Oauth.antt =====
-- internal/oauth: proof keys, and the addresses that codes may be delivered to.
pub mod Authorize
pub mod Pkce
pub mod Redirect
mod Examples
