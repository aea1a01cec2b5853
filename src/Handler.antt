-- ===== src/Handler.antt =====
-- internal/handler: the endpoint that web forms post to, and the one that hands out tokens.
pub mod Submit
pub mod Token
