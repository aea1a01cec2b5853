-- ===== src/Store/Rotation.antt =====
-- internal/store/oauth.go: refresh tokens, and grants that their owner takes back. Each operation is one
-- transaction on the tables of Store/Grants.
pub mod Reuse
use dsforms.Common.{
  ℕ, ltb, if◌then◌else◌, ◌>>=◌, any, Text, ◌==◌, Bool, true, false, ◌&&◌, not, Option, none, some,
  List, [], ◌∷◌,
}
use dsforms.Store.Grants.{
  OauthGrant, RefreshToken, Tables, Fresh, Reply, not_found, refresh_reused, revoke_grant, replayed,
  mint_tokens, committed,
}

-- `token_hash` and `id` are primary keys.
unfoldable pub find_refresh : Text → List RefreshToken → Option RefreshToken
find_refresh h [] = none
find_refresh h (r ∷ rs) = let rest = find_refresh h rs in if r.token_hash == h then some r else rest

unfoldable pub find_grant : Text → List OauthGrant → Option OauthGrant
find_grant id [] = none
find_grant id (g ∷ gs) = let rest = find_grant id gs in if g.id == id then some g else rest

unfoldable pub if_live : ℕ → RefreshToken → Option RefreshToken
if_live now r = if ltb now r.expires_at then some r else none

unfoldable pub with_grant : Tables → RefreshToken → Option (RefreshToken × OauthGrant)
with_grant db r = do g ← find_grant r.grant_id db.grants; some (r, g)

-- The SELECT: the row of a refresh token that has not expired, joined to its grant.
unfoldable pub presented : Tables → ℕ → Text → Option (RefreshToken × OauthGrant)
unfolding if_live with_grant
presented db now h = do r ← find_refresh h db.refreshes; r ← if_live now r; with_grant db r

-- The UPDATE. It finds its row unused, since the SELECT of the same transaction did.
unfoldable pub spend_refresh : Text → List RefreshToken → List RefreshToken
spend_refresh h [] = []
spend_refresh h (r ∷ rs) =
    (if r.token_hash == h then record r { used = true } else r) ∷ spend_refresh h rs

unfoldable pub refresh_by :
    (Text → Text) → Tables → ℕ → Text → Fresh → Option (RefreshToken × OauthGrant) → Tables × Reply
refresh_by digest db now client fresh none = (db, not_found)
refresh_by digest db now client fresh (some (r, g)) =
    if not (g.client_id == client)
    then (db, not_found)
    else if r.used
    then (replayed r.grant_id db, refresh_reused)
    else committed db g.id (
        mint_tokens digest now fresh g
          (record db { refreshes = spend_refresh r.token_hash db.refreshes }))

unfoldable pub refresh_grant : (Text → Text) → Tables → ℕ → Text → Text → Fresh → Tables × Reply
unfolding refresh_by
refresh_grant digest db now raw client fresh =
    if raw == []
    then (db, not_found)
    else refresh_by digest db now client fresh (presented db now (digest raw))

unfoldable pub revoke_oauth_grant : Text → Text → Tables → Tables × Bool
unfolding revoke_grant
revoke_oauth_grant user id db =
    if any (λ g. (g.id == id) && (g.user_id == user)) db.grants
    then (revoke_grant id db, true)
    else (db, false)
