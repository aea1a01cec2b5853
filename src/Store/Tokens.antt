-- ===== src/Store/Tokens.antt =====
-- internal/store/apitokens.go: reading, revoking and expiring access tokens. The rows are those of the
-- table in Store/Grants; the row's expiry is 0 for a token that never expires.
pub mod Answers
use dsforms.Common.{
  ℕ, ◌=ℕ◌, ltb, if◌then◌else◌, keep, any, first, Text, bytes, ◌==◌, join, Bool, ◌&&◌, ◌||◌, not,
  Option, none, [],
}
use dsforms.Store.FormScope.{FormScope, parse_form_scope}
use dsforms.Store.ScopeList.{split_scopes}
use dsforms.Store.Grants.{ApiToken, Tables}

unfoldable pub expired : ApiToken → ℕ → Bool
expired t now = not (t.expires_at =ℕ 0) && not (ltb now t.expires_at)

-- `Scope`, on the list that `scanAPIToken` read from the column.
unfoldable pub scope : ApiToken → FormScope
scope t = parse_form_scope (join (bytes ",") (split_scopes t.form_ids))

-- The condition of the SELECT.
unfoldable pub is_live : ℕ → Text → ApiToken → Bool
is_live now h t = (t.token_hash == h) && ((t.expires_at =ℕ 0) || ltb now t.expires_at)

unfoldable pub get_api_token : (Text → Text) → Tables → ℕ → Text → Option ApiToken
get_api_token digest db now raw =
    if raw == [] then none else first (is_live now (digest raw)) db.tokens

unfoldable pub delete_api_token : Text → Text → Tables → Tables × Bool
delete_api_token user id db = (
  record db { tokens = keep (λ t. not ((t.user_id == user) && (t.id == id))) db.tokens },
  any (λ t. (t.user_id == user) && (t.id == id)) db.tokens,
)
