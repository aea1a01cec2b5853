-- ===== src/Handler/Token.antt =====
-- internal/handler/oauth.go: the token endpoint, where a client shows an authorization code or a refresh
-- token. Headers other than the challenge, and log lines, are left out.
pub mod Vouched
mod Examples
use dsforms.Common.{
  ℕ, if◌then◌else◌, any, first, Text, bytes, ◌==◌, join, mem, Bool, true, false, ◌&&◌, ◌||◌, not,
  Option, none, some, List, [],
}
use dsforms.Oauth.Pkce.{verify_pkce}
use dsforms.Oauth.Authorize.{same_resource}
use dsforms.Store.Grants.{
  Client, AuthCode, Tables, Fresh, Reply, issued, not_found, code_reused, code_rejected,
  refresh_reused, constraint, exchange_auth_code, access_token_ttl,
}
use dsforms.Store.Rotation.{refresh_grant}
use dsforms.Store.ScopeList.{split_scopes}
use dsforms.Store.Registration.{get_oauth_client}

-- The digest of stored secrets, and the two functions of proof keys.
pub record Hashes : Type 0 where
  pub digest : Text → Text
  pub sha256 : Text → Text
  pub base64 : Text → Text

-- `basic` is the user name of the Authorization header, and `parsed` tells whether the body was a form.
pub record TokenRequest : Type 0 where
  pub parsed : Bool
  pub basic : Option Text
  pub form : Text → Text

-- What the disk does: it may fail under the lookup of the client, under the transaction, or only under
-- the revocation after a replay.
pub data Fault : Type 0 where
  no_fault lookup_fails transaction_fails revocation_fails : Fault

-- `invalid_client true` carries the challenge of the Basic scheme. In `tokens` are the access token, the
-- seconds it lives, the scopes and the refresh token.
pub data TokenAnswer : Type 0 where
  invalid_request server_error unsupported_grant_type unauthorized_client invalid_grant :
      TokenAnswer
  invalid_client : Bool → TokenAnswer
  tokens : Text → ℕ → Text → Option Text → TokenAnswer

abbrev pub grant_authorization_code : Text
grant_authorization_code = bytes "authorization_code"

abbrev pub grant_refresh_token : Text
grant_refresh_token = bytes "refresh_token"

abbrev pub used_basic : Option Text → Bool
used_basic none = false
used_basic (some name) = true

abbrev basic_name : Option Text → Text
basic_name none = []
basic_name (some name) = name

abbrev pub presented_id : TokenRequest → Text
presented_id r =
    if r.form (bytes "client_id") == [] then basic_name r.basic else r.form (bytes "client_id")

unfoldable pub accept : Hashes → (Text → Text) → Client → AuthCode → Bool
accept hashes form k code =
    (code.client_id == k.id)
    && (code.redirect_uri == form (bytes "redirect_uri"))
    && verify_pkce hashes.sha256 hashes.base64 (form (bytes "code_verifier")) code.code_challenge
    && ((form (bytes "resource") == []) || same_resource (form (bytes "resource")) code.resource)

abbrev is_reused : Reply → Bool
is_reused (issued id) = false
is_reused not_found = false
is_reused code_reused = true
is_reused code_rejected = false
is_reused refresh_reused = true
is_reused constraint = false

-- The transaction under a fault: a failed one is rolled back, and is not begun for an empty secret. The
-- Boolean of the result is `ErrRevokeFailed`.
unfoldable pub under : Fault → Text → Bool → Tables → Tables × Reply → Tables × Bool × Reply
under no_fault raw revokes db (after, reply) = (after, false, reply)
under lookup_fails raw revokes db (after, reply) = (after, false, reply)
under transaction_fails raw revokes db (after, reply) =
    if raw == [] then (after, false, reply) else (db, false, constraint)
under revocation_fails raw revokes db (after, reply) =
    if revokes && is_reused reply then (db, true, reply) else (after, false, reply)

-- An exchange fails with `ErrCodeReused` only, and a refresh with `ErrRefreshReused` only.
unfoldable pub grant_error : Bool → Reply → TokenAnswer
grant_error revoke_failed (issued id) = server_error
grant_error revoke_failed not_found = if revoke_failed then server_error else invalid_grant
grant_error revoke_failed code_reused = if revoke_failed then server_error else invalid_grant
grant_error revoke_failed code_rejected = if revoke_failed then server_error else invalid_grant
grant_error revoke_failed refresh_reused = if revoke_failed then server_error else invalid_grant
grant_error revoke_failed constraint = server_error

-- The scopes of the access token that was written.
unfoldable pub written_scopes : Fresh → Tables → List Text
written_scopes fresh db = elim (first (λ t. t.id == fresh.token_id) db.tokens) [
  | none ↦ []
  | some t ↦ split_scopes t.scopes
]

unfoldable pub write_tokens : List Text → Fresh → Tables → TokenAnswer
unfolding written_scopes
write_tokens types fresh db =
    tokens fresh.access access_token_ttl (join (bytes " ") (written_scopes fresh db))
      (if mem grant_refresh_token types then some fresh.refresh else none)

unfoldable pub answer_of : List Text → Fresh → Tables × Bool × Reply → Tables × TokenAnswer
unfolding write_tokens grant_error
answer_of types fresh (db, lost, issued id) = (db, write_tokens types fresh db)
answer_of types fresh (db, lost, not_found) = (db, grant_error lost not_found)
answer_of types fresh (db, lost, code_reused) = (db, grant_error lost code_reused)
answer_of types fresh (db, lost, code_rejected) = (db, grant_error lost code_rejected)
answer_of types fresh (db, lost, refresh_reused) = (db, grant_error lost refresh_reused)
answer_of types fresh (db, lost, constraint) = (db, grant_error lost constraint)

unfoldable pub exchange_code :
    Hashes → Fault → ℕ → Fresh → (Text → Text) → Client → List Text → Tables → Tables × TokenAnswer
unfolding answer_of under accept
exchange_code hashes fault now fresh form k types db =
    let raw = form (bytes "code") in
    let revokes =
      any (λ c. (c.code_hash == hashes.digest raw) && not (c.grant_id == [])) db.codes in
    answer_of types fresh (
      under fault raw revokes db
        (exchange_auth_code hashes.digest db now raw (accept hashes form k) fresh))

unfoldable pub refresh :
    Hashes → Fault → ℕ → Fresh → (Text → Text) → Client → List Text → Tables → Tables × TokenAnswer
unfolding answer_of under
refresh hashes fault now fresh form k types db =
    let raw = form (bytes "refresh_token") in
    let revokes =
      any (λ r. (r.token_hash == hashes.digest raw) && not (r.grant_id == [])) db.refreshes in
    if not (mem grant_refresh_token types)
    then (db, unauthorized_client)
    else answer_of types fresh
        (under fault raw revokes db (refresh_grant hashes.digest db now raw k.id fresh))

unfoldable pub granted_to :
    Hashes
    → Fault
    → ℕ
    → Fresh
    → TokenRequest
    → Tables
    → Option (Client × List Text × List Text)
    → Tables × TokenAnswer
unfolding exchange_code refresh
granted_to hashes fault now fresh r db none = (db, invalid_client (used_basic r.basic))
granted_to hashes fault now fresh r db (some (k, uris, types)) =
    if r.form (bytes "grant_type") == grant_authorization_code
    then exchange_code hashes fault now fresh r.form k types db
    else if r.form (bytes "grant_type") == grant_refresh_token
    then refresh hashes fault now fresh r.form k types db
    else (db, unsupported_grant_type)

abbrev fails_lookup : Fault → Bool
fails_lookup no_fault = false
fails_lookup lookup_fails = true
fails_lookup transaction_fails = false
fails_lookup revocation_fails = false

unfoldable pub token : Hashes → Fault → ℕ → Fresh → TokenRequest → Tables → Tables × TokenAnswer
unfolding granted_to
token hashes fault now fresh r db =
    if not r.parsed
    then (db, invalid_request)
    else if fails_lookup fault
    then (db, server_error)
    else granted_to hashes fault now fresh r db (get_oauth_client (presented_id r) db)
