-- ===== src/Store/Grants.antt =====
-- internal/store/oauth.go: authorization codes, grants and their tokens. The tables are lists of rows;
-- each operation is one transaction, so an operation that fails on a constraint changes nothing. The
-- digest of a secret is a parameter, and so are the fresh secrets and ids that the code draws.
pub mod Replay
mod Examples
use dsforms.Store.ScopeList.{split_scopes, join_scopes}
use dsforms.Common.{
  ℕ, ◌+◌, ltb, if◌then◌else◌, keep, any, Text, ◌==◌, Bool, true, false, ◌&&◌, ◌||◌, not, Option,
  none, some, List, [], ◌∷◌, ◌++◌,
}

-- In seconds.
abbrev pub access_token_ttl : ℕ
access_token_ttl = 3600

abbrev pub refresh_token_ttl : ℕ
refresh_token_ttl = 2592000

pub record AuthCode : Type 0 where
  pub code_hash : Text
  pub client_id : Text
  pub user_id : Text
  pub redirect_uri : Text
  pub code_challenge : Text
  pub resource : Text
  pub scopes : Text
  pub form_ids : Text
  pub expires_at : ℕ
  pub used : Bool
  pub grant_id : Text

pub record OauthGrant : Type 0 where
  pub id : Text
  pub client_id : Text
  pub user_id : Text
  pub redirect_uri : Text
  pub scopes : Text
  pub form_ids : Text
  pub last_used_at : Option ℕ

-- What the store keeps of a registered client. Its name and its addresses are never changed.
pub record Client : Type 0 where
  pub id : Text
  pub name : Text
  pub redirect_uris : Text
  pub grant_types : Text
  pub created_at : ℕ

-- An access token. `grant_id` is empty for one that was made by hand; `expires_at` is 0 where the
-- column is empty, for a token that never expires, and `last_used_at` is `none` there.
pub record ApiToken : Type 0 where
  pub id : Text
  pub token_hash : Text
  pub user_id : Text
  pub scopes : Text
  pub form_ids : Text
  pub expires_at : ℕ
  pub grant_id : Text
  pub last_used_at : Option ℕ

pub record RefreshToken : Type 0 where
  pub token_hash : Text
  pub grant_id : Text
  pub expires_at : ℕ
  pub used : Bool

pub record Tables : Type 0 where
  pub clients : List Client
  pub codes : List AuthCode
  pub grants : List OauthGrant
  pub tokens : List ApiToken
  pub refreshes : List RefreshToken

pub record Fresh : Type 0 where
  pub grant_id : Text
  pub token_id : Text
  pub access : Text
  pub refresh : Text

pub data Reply : Type 0 where
  issued : Text → Reply
  not_found code_reused code_rejected refresh_reused constraint : Reply

unfoldable pub revoke_grant : Text → Tables → Tables
revoke_grant g db = record db {
  tokens = keep (λ t. not (t.grant_id == g)) db.tokens;
  refreshes = keep (λ r. not (r.grant_id == g)) db.refreshes;
  grants = keep (λ c. not (c.id == g)) db.grants;
}

unfoldable pub revoke_all : List OauthGrant → Tables → Tables
unfolding revoke_grant
revoke_all [] db = db
revoke_all (c ∷ grants) db = revoke_all grants (revoke_grant c.id db)

unfoldable pub replace_grants : Text → Text → Tables → Tables
unfolding revoke_all
replace_grants client user db =
    revoke_all (keep (λ c. (c.client_id == client) && (c.user_id == user)) db.grants) db

unfoldable pub replayed : Text → Tables → Tables
unfolding revoke_grant
replayed g db = if g == [] then db else revoke_grant g db

unfoldable pub find_code : Text → List AuthCode → Option AuthCode
find_code h [] = none
find_code h (c ∷ codes) = if c.code_hash == h then some c else find_code h codes

-- An UPDATE of the row with this digest.
unfoldable pub update_code : Text → (AuthCode → AuthCode) → List AuthCode → List AuthCode
update_code h change [] = []
update_code h change (c ∷ codes) =
    (if c.code_hash == h then change c else c) ∷ update_code h change codes

abbrev pub spent : AuthCode → AuthCode
spent c = record c { used = true }

abbrev pub tied : Text → AuthCode → AuthCode
tied g c = record c { grant_id = g }

-- With `insertAPIToken`; `none` is a missing client, a missing user, or an id or secret that is taken.
unfoldable pub mint_tokens : (Text → Text) → ℕ → Fresh → OauthGrant → Tables → Option Tables
mint_tokens digest now fresh g db =
    if not (any (λ k. k.id == g.client_id) db.clients)
      || (g.user_id == [])
      || any (λ t. t.id == fresh.token_id) db.tokens
      || any (λ t. t.token_hash == digest fresh.access) db.tokens
      || any (λ r. r.token_hash == digest fresh.refresh) db.refreshes
    then none
    else some (record db {
      tokens =
          db.tokens
          ++ record {
            id = fresh.token_id;
            token_hash = digest fresh.access;
            user_id = g.user_id;
            scopes = join_scopes (split_scopes g.scopes);
            form_ids = join_scopes (split_scopes g.form_ids);
            expires_at = now + access_token_ttl;
            grant_id = g.id;
            last_used_at = none;
          }
            ∷ [];
      refreshes =
          db.refreshes
          ++ record {
            token_hash = digest fresh.refresh;
            grant_id = g.id;
            expires_at = now + refresh_token_ttl;
            used = false;
          }
            ∷ [];
    })

abbrev pub grant_of : Text → AuthCode → OauthGrant
grant_of id c = record {
  id = id;
  client_id = c.client_id;
  user_id = c.user_id;
  redirect_uri = c.redirect_uri;
  scopes = c.scopes;
  form_ids = c.form_ids;
  last_used_at = none;
}

-- The tables once the grant stands and before its tokens are made.
unfoldable pub granted : Text → AuthCode → Tables → Tables
unfolding replace_grants update_code
granted id c db =
    let spare =
      replace_grants c.client_id c.user_id
        (record db { codes = update_code c.code_hash spent db.codes }) in
    record spare {
      grants = spare.grants ++ grant_of id c ∷ [];
      codes = update_code c.code_hash (tied id) spare.codes;
    }

unfoldable pub committed : Tables → Text → Option Tables → Tables × Reply
committed db id none = (db, constraint)
committed db id (some made) = (made, issued id)

unfoldable pub exchange_by :
    (Text → Text) → Tables → ℕ → (AuthCode → Bool) → Fresh → Option AuthCode → Tables × Reply
unfolding granted mint_tokens replayed committed
exchange_by digest db now accept fresh none = (db, not_found)
exchange_by digest db now accept fresh (some c) =
    if c.used
    then (replayed c.grant_id db, code_reused)
    else if not (ltb now c.expires_at)
    then (db, not_found)
    else if not (accept c)
    then (record db { codes = update_code c.code_hash spent db.codes }, code_rejected)
    else if any (λ g. g.id == fresh.grant_id) db.grants
    then (db, constraint)
    else committed db fresh.grant_id
        (mint_tokens digest now fresh (grant_of fresh.grant_id c) (granted fresh.grant_id c db))

unfoldable pub exchange_auth_code :
    (Text → Text) → Tables → ℕ → Text → (AuthCode → Bool) → Fresh → Tables × Reply
unfolding exchange_by find_code
exchange_auth_code digest db now raw accept fresh =
    if raw == []
    then (db, not_found)
    else exchange_by digest db now accept fresh (find_code (digest raw) db.codes)
