-- ===== src/Lib.antt =====
-- dsforms is a self-hosted form backend. A web form posts to it; the screener decides whether the
-- submission is held; the store keeps it in SQLite, in the inbox or in the quarantine; operators read
-- it in an admin panel and MCP clients through tokens with scopes, which they get from a small OAuth
-- server. This library models the parts that decide something.
--
-- The parts, and where each is modelled:
-- * internal/screen (Screen): `decide` of Screen/Decide is `Screener.Decide`. It asks the tracker
--   of Repeat (internal/screen/internal/repeat), then the rules of Screen/Rules
--   (internal/screen/internal/rules), then the content score of Screen/Score and
--   Screen/Score/Gibberish (internal/screen/internal/score). Addresses are those of Screen/Addr
--   (internal/screen/internal/addr).
-- * internal/handler/submit.go (Handler/Submit): the endpoint that forms post to. It puts together
--   the redirect, the screener and the tables; Handler/Submit/Handled says what an answer means and
--   Handler/Submit/Settled that the verdict does not show in it.
-- * internal/handler/oauth.go (Handler/Token): the token endpoint, on Store/Grants, Store/Rotation and
--   Oauth. Its other pages, which register a client and ask for consent, are not modelled.
-- * internal/ratelimit (RateLimit): the token bucket in RateLimit/Limiter, the login guard in
--   RateLimit/LoginGuard.
-- * internal/store/quarantine.go (Store/Quarantine): the tables `submissions` and `spam_signals`, and
--   the operations on held submissions. `cascade` is a DELETE with its ON DELETE CASCADE.
-- * internal/store/oauth.go (Store/Grants): the tables of authorization codes, grants and tokens, and
--   the exchange of a code, one transaction. Store/Grants/Replay is about a code shown twice.
--   Store/Rotation is about refresh tokens, Store/Housekeeping about what is removed in time,
--   and Store/Registration about the rows of clients and of approved requests.
-- * internal/store/apitokens.go (Store/Tokens, Store/ScopeList): access tokens as they are presented, and
--   the columns that hold lists; Store/Registration makes one by hand and stamps its use.
-- * internal/store/formscope.go (Store/FormScope): the forms that a token may reach, and the SQL
--   condition this becomes, which Store/FormScope/Sql reads as SQLite does. Store/Quarantine asks
--   `allows` where the statements add that condition.
-- * internal/mcpserver/scope.go (Mcp/Scopes): the scopes of a token.
-- * internal/oauth (Oauth): proof keys (pkce.go), redirect addresses (redirect.go), authorization
--   requests and the signature on the consent form (authorize.go).
-- * internal/redact/redact.go (Redact): what a submission loses before an MCP client sees it. The
--   pass that removes invisible text is Redact/Invisible, the one that cuts at a forged turn is
--   Redact/Markers, and Redact composes them for one value and for all fields.
-- * internal/urlsafe/urlsafe.go (Urlsafe): where a visitor may be sent after a submission.
-- Common holds what the parts share: Boolean tests, lists over the native numbers, signed integers,
-- texts as lists of bytes with the functions of the package strings, association lists for maps,
-- and the parameters that stand for net/url.
--
-- How code corresponds to definitions: a Go function is the definition of the same name in snake
-- case. A method that changes its receiver takes the state and returns the new one; a panic is
-- `none`, and an error is a constructor of the part's own type. Each method of a tracker or limiter
-- runs under a mutex, and each statement or transaction on the store is one step, so any
-- interleaving of callers is a list of calls. The clock is an argument of each call. A map is an
-- association list in insertion order where its iteration order cannot be seen, and otherwise a list
-- in any order, with a theorem that the order does not matter. A string is a list of bytes.
--
-- Bounds and fuel: every loop runs over a list, apart from the batches of `delete_held`, which take
-- as fuel the number of ids. That is enough, since each batch takes at least one id, and the theorem
-- on `delete_held` includes it, and the digits of a number in a report of Redact, which take twenty
-- as fuel, enough for every number of 64 bits. Counts are unbounded, since none can reach the bound of an int; the
-- 64-bit lengths and times in the signed message keep their wrap-around.
--
-- What is a parameter: the standard library's tables of characters, `mail.ParseAddress`, the
-- parsers of the package net, and `strings.ToLower`, as the record Platform of Screen/Platform;
-- `url.Parse` and `path.Clean`, as the record Web of Common/Web; HMAC, hexadecimal and decimal
-- numbers, as the record Codec of Oauth/Authorize; SHA-256 and base64url in Oauth/Pkce
-- and Handler/Token; the digest of a
-- secret, the fresh secrets and ids, and the caller's check in Store/Grants.
-- What is approximate: the token bucket counts in exact fractions of a token where the code uses
-- float64, and ratios in the content score are compared by cross-multiplication.
--
-- What is not modelled: the other handlers, templates, the text of SQL statements apart from the condition of a
-- form scope, mail, webhooks, backup and start-up, which are I/O around the parts above; log lines and
-- the wording of errors. A failing disk is modelled in `delete_held`, where the code reports what was
-- deleted before the failure, in Handler/Submit, where each store call may fail, and in Handler/Token.
pub mod Common
pub mod Handler
pub mod Mcp
pub mod Oauth
pub mod RateLimit
pub mod Redact
pub mod Repeat
pub mod Screen
pub mod Store
pub mod Urlsafe
