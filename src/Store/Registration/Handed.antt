-- ===== src/Store/Registration/Handed.antt =====
-- internal/store/oauth.go: the rows of new tokens, and that they are found.
use dsforms.Common.{
  ℕ, ◌+◌, lt→ltb, any, first, Text, eq_refl, ◌==◌, ◌≡◌, refl, true, false, none, some, List, [],
  ◌∷◌, ◌++◌, arith,
}
use dsforms.Store.ScopeList.{split_scopes, join_scopes}
use dsforms.Store.Tokens.{get_api_token, is_live}
use dsforms.Store.Rotation.{find_refresh, find_grant, presented}
use dsforms.Store.Rotation.Reuse.{IsConsented, found-presented}
use dsforms.Store.Grants.{
  AuthCode, OauthGrant, ApiToken, RefreshToken, Tables, Fresh, issued, find_code, mint_tokens,
  committed, access_token_ttl, refresh_token_ttl,
}

pub find_code-new :
    (h : Text) (codes : List AuthCode) (c : AuthCode)
    → any (λ k. k.code_hash == h) codes ≡ false
    → (c.code_hash == h) ≡ true
    → find_code h (codes ++ c ∷ []) ≡ some c
unfolding find_code
find_code-new h [] c e n = rw n refl
find_code-new h (k ∷ codes) c e n = ground (arith, find_code-new h codes c)

pub find_grant-new :
    (id : Text) (gs : List OauthGrant) (g : OauthGrant)
    → any (λ k. k.id == id) gs ≡ false
    → (g.id == id) ≡ true
    → find_grant id (gs ++ g ∷ []) ≡ some g
unfolding find_grant
find_grant-new id [] g e n = rw n refl
find_grant-new id (k ∷ gs) g e n = ground (arith, find_grant-new id gs g)

find_refresh-new :
    (h : Text) (rs : List RefreshToken) (r : RefreshToken)
    → any (λ k. k.token_hash == h) rs ≡ false
    → (r.token_hash == h) ≡ true
    → find_refresh h (rs ++ r ∷ []) ≡ some r
unfolding find_refresh
find_refresh-new h [] r e n = rw n refl
find_refresh-new h (k ∷ rs) r e n = ground (arith, find_refresh-new h rs r)

first_live-new :
    (now : ℕ) (h : Text) (ts : List ApiToken) (t : ApiToken)
    → any (λ k. k.token_hash == h) ts ≡ false
    → is_live now h t ≡ true
    → first (is_live now h) (ts ++ t ∷ []) ≡ some t
unfolding is_live
first_live-new now h [] t e n = rw n refl
first_live-new now h (k ∷ ts) t e n = ground (arith, first_live-new now h ts t)

abbrev access_row : (Text → Text) → ℕ → Fresh → OauthGrant → ApiToken
access_row digest now fresh g = record {
  id = fresh.token_id;
  token_hash = digest fresh.access;
  user_id = g.user_id;
  scopes = join_scopes (split_scopes g.scopes);
  form_ids = join_scopes (split_scopes g.form_ids);
  expires_at = now + access_token_ttl;
  grant_id = g.id;
  last_used_at = none;
}

abbrev refresh_row : (Text → Text) → ℕ → Fresh → OauthGrant → RefreshToken
refresh_row digest now fresh g = record {
  token_hash = digest fresh.refresh;
  grant_id = g.id;
  expires_at = now + refresh_token_ttl;
  used = false;
}

-- The tables with the two tokens of a grant.
unfoldable pub handed : (Text → Text) → ℕ → Fresh → OauthGrant → Tables → Tables
handed digest now fresh g db = record db {
  tokens = db.tokens ++ access_row digest now fresh g ∷ [];
  refreshes = db.refreshes ++ refresh_row digest now fresh g ∷ [];
}

pub committed-handed :
    (digest : Text → Text) (now : ℕ) (fresh : Fresh) (g : OauthGrant) (before db : Tables)
    (id : Text)
    → any (λ k. k.id == g.client_id) db.clients ≡ true
    → (g.user_id == []) ≡ false
    → any (λ t. t.id == fresh.token_id) db.tokens ≡ false
    → any (λ t. t.token_hash == digest fresh.access) db.tokens ≡ false
    → any (λ r. r.token_hash == digest fresh.refresh) db.refreshes ≡ false
    → committed before id (mint_tokens digest now fresh g db)
      ≡ (handed digest now fresh g db, issued id)
unfolding mint_tokens committed handed
committed-handed digest now fresh g before db id k u i t r = rw (k, u, i, t, r) refl

-- The two drawn secrets work: the first opens the API with what the grant consents to, and the second is
-- an unused refresh token of the grant.
abbrev pub IsWorking : (Text → Text) → ℕ → Fresh → OauthGrant → Tables → Type 0
IsWorking digest now fresh g db =
    ((t : ApiToken) × (get_api_token digest db now fresh.access ≡ some t) × IsConsented g t)
    × ((r : RefreshToken) × (presented db now (digest fresh.refresh) ≡ some (r, g))
        × (r.used ≡ false))

pub handed-IsWorking :
    (digest : Text → Text) (now : ℕ) (fresh : Fresh) (g : OauthGrant) (db : Tables)
    → (fresh.access == []) ≡ false
    → any (λ t. t.token_hash == digest fresh.access) db.tokens ≡ false
    → any (λ r. r.token_hash == digest fresh.refresh) db.refreshes ≡ false
    → find_grant g.id db.grants ≡ some g
    → IsWorking digest now fresh g (handed digest now fresh g db)
unfolding handed get_api_token
handed-IsWorking digest now fresh g db a t r f =
    let access = access_row digest now fresh g in
    let refresh = refresh_row digest now fresh g in
    let live : is_live now (digest fresh.access) access ≡ true =
      unfold is_live in
      rw (eq_refl (digest fresh.access), lt→ltb now (now + access_token_ttl) (omega arith))
        (ground arith) in
    (
      (
        access,
        rw a (first_live-new now (digest fresh.access) db.tokens access t live),
        (refl, refl, refl, refl),
      ),
      (
        refresh,
        found-presented _ now (digest fresh.refresh) refresh g
            (find_refresh-new (digest fresh.refresh) db.refreshes refresh r
              (eq_refl (digest fresh.refresh)))
            (omega arith) f,
        refl,
      ),
    )
