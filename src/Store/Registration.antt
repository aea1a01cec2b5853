-- ===== src/Store/Registration.antt =====
-- internal/store/oauth.go and apitokens.go: the rows of a client, of an approved request and of a token
-- that is made by hand. Each is one INSERT; `none` is a broken constraint.
pub mod Handed
pub mod SignIn
pub mod Clients
use dsforms.Common.{
  ℕ, ◌+◌, ◌=ℕ◌, if◌then◌else◌, ◌>>=◌, any, first, Text, ◌==◌, split, join, false, ◌&&◌, ◌||◌, not,
  Option, none, some, List, [], ◌∷◌, ◌++◌, map,
}
use dsforms.Store.Grants.{Client, AuthCode, Tables}
use dsforms.Store.ScopeList.{split_scopes, join_scopes}

-- In seconds.
abbrev pub auth_code_ttl : ℕ
auth_code_ttl = 60

unfoldable pub create_oauth_client :
    Text → Text → List Text → List Text → ℕ → Tables → Option Tables
unfolding join_scopes
create_oauth_client id name redirect_uris grant_types now db =
    if any (λ k. k.id == id) db.clients
    then none
    else some (record db {
      clients =
          db.clients
          ++ record {
            id = id;
            name = name;
            redirect_uris = join (b'\n' ∷ []) redirect_uris;
            grant_types = join_scopes grant_types;
            created_at = now;
          }
            ∷ [];
    })

abbrev lists_of : Client → Client × List Text × List Text
lists_of k = (k, split b'\n' k.redirect_uris, split_scopes k.grant_types)

-- The row, with its addresses and its grant types.
unfoldable pub get_oauth_client : Text → Tables → Option (Client × List Text × List Text)
get_oauth_client id db = do k ← first (λ k. k.id == id) db.clients; some (lists_of k)

-- What the operator approved.
pub record Consent : Type 0 where
  pub client_id : Text
  pub user_id : Text
  pub redirect_uri : Text
  pub code_challenge : Text
  pub resource : Text
  pub scopes : List Text
  pub form_ids : List Text

unfoldable pub code_row : Text → Consent → ℕ → AuthCode
code_row h c now = record {
  code_hash = h;
  client_id = c.client_id;
  user_id = c.user_id;
  redirect_uri = c.redirect_uri;
  code_challenge = c.code_challenge;
  resource = c.resource;
  scopes = join_scopes c.scopes;
  form_ids = join_scopes c.form_ids;
  expires_at = now + auth_code_ttl;
  used = false;
  grant_id = [];
}

-- `raw` is the secret that is drawn. That the user exists is not looked at here.
unfoldable pub create_auth_code : (Text → Text) → Text → Consent → ℕ → Tables → Option Tables
create_auth_code digest raw c now db =
    if any (λ k. k.code_hash == digest raw) db.codes
      || not (any (λ k. k.id == c.client_id) db.clients)
    then none
    else some (record db { codes = db.codes ++ code_row (digest raw) c now ∷ [] })

-- An `expiry` of 0 is a token that never expires; a negative one, which only tests use, is left out.
unfoldable pub create_api_token :
    (Text → Text) → Text → Text → Text → List Text → List Text → ℕ → ℕ → Tables → Option Tables
create_api_token digest id raw user scopes form_ids expiry now db =
    if (user == []) || any (λ t. (t.id == id) || (t.token_hash == digest raw)) db.tokens
    then none
    else some (record db {
      tokens =
          db.tokens
          ++ record {
            id = id;
            token_hash = digest raw;
            user_id = user;
            scopes = join_scopes scopes;
            form_ids = join_scopes form_ids;
            expires_at = (if expiry =ℕ 0 then 0 else now + expiry);
            grant_id = [];
            last_used_at = none;
          }
            ∷ [];
    })

-- The token's stamp, and that of the grant it was issued under.
unfoldable pub touch_api_token : Text → ℕ → Tables → Tables
touch_api_token id now db = record db {
  tokens = map (λ t. if t.id == id then record t { last_used_at = some now } else t) db.tokens;
  grants =
      map
        (λ g.
          if any (λ t. (t.id == id) && not (t.grant_id == []) && (t.grant_id == g.id)) db.tokens
          then record g { last_used_at = some now }
          else g)
        db.grants;
}
