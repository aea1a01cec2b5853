-- ===== src/Store/Rotation/Reuse.antt =====
-- internal/store/oauth.go: a refresh token works once, and showing it again ends its grant.
use dsforms.Common.{
  ℕ, ◌<◌, ltb, if◌then◌else◌, ◌>>=◌, lt→ltb, Bool-cases, Option-cases, Text, eq_sound, eq_iff, ◌==◌,
  ◌≡◌, refl, sym, ap, ◌∙◌, subst, inl, inr, Bool, true, false, Option, none, some, List, [], ◌∷◌,
  ◌++◌, arith,
}
use dsforms.Store.Grants.{
  OauthGrant, ApiToken, RefreshToken, Tables, Fresh, issued, not_found, refresh_reused, replayed,
  mint_tokens,
}
use dsforms.Store.ScopeList.{split_scopes, join_scopes}
use dsforms.Store.Grants.Replay.{IsRevoked, replayed-IsRevoked, committed-issued}
use dsforms.Store.Rotation.{
  refresh_grant, refresh_by, find_refresh, find_grant, presented, if_live, with_grant,
  spend_refresh,
}

abbrev used_up : Option RefreshToken → Option RefreshToken
used_up none = none
used_up (some r) = some (record r { used = true })

find-spend_refresh :
    (h : Text) (rs more : List RefreshToken) (r : RefreshToken)
    → find_refresh h rs ≡ some r
    → find_refresh h (spend_refresh h rs ++ more) ≡ some (record r { used = true })
unfolding find_refresh spend_refresh
find-spend_refresh h [] more r e = ground arith
find-spend_refresh h (x ∷ rs) more r e = elim (Bool-cases (x.token_hash == h)) [
  | inl k ↦ rw k (rw k (ap used_up (rw k at e)))
  | inr k ↦ rw k (rw k (find-spend_refresh h rs more r (rw k at e)))
]

find_refresh-hash :
    (h : Text) (rs : List RefreshToken) (r : RefreshToken)
    → find_refresh h rs ≡ some r
    → r.token_hash ≡ h
unfolding find_refresh
find_refresh-hash h [] r e = ground arith
find_refresh-hash h (x ∷ rs) r e = ground (arith, find_refresh-hash h rs r, eq_iff x.token_hash h)

find_grant-id :
    (id : Text) (gs : List OauthGrant) (g : OauthGrant) → find_grant id gs ≡ some g → g.id ≡ id
unfolding find_grant
find_grant-id id [] g e = ground arith
find_grant-id id (x ∷ gs) g e = ground (arith, find_grant-id id gs g, eq_iff x.id id)

-- What the SELECT found.
joined :
    (db : Tables) (r s : RefreshToken) (g : OauthGrant)
    → with_grant db r ≡ some (s, g)
    → (r ≡ s) × (find_grant r.grant_id db.grants ≡ some g)
unfolding with_grant
joined db r s g e = elim (Option-cases (find_grant r.grant_id db.grants)) [
  | inl n ↦ ground (arith, rw n at e)
  | inr (x, f) ↦ rw f (cc (rw f at e), cc (rw f at e))
]

live :
    (db : Tables) (now : ℕ) (o : Option RefreshToken) (r : RefreshToken) (g : OauthGrant)
    → (do t ← o; t ← if_live now t; with_grant db t) ≡ some (r, g)
    → (o ≡ some r) × (now < r.expires_at) × (find_grant r.grant_id db.grants ≡ some g)
unfolding if_live
live db now none r g e = ground arith
live db now (some t) r g e = elim (Bool-cases (ltb now t.expires_at)) [
  | inl l ↦
      let (same, f) = joined db t r g (rw l at e) in
      (
        ap some same,
        ground (arith, same, l),
        subst (λ t. find_grant t.grant_id db.grants ≡ some g) same f,
      )
  | inr l ↦ ground (arith, rw l at e)
]

pub presented-find :
    (db : Tables) (now : ℕ) (h : Text) (r : RefreshToken) (g : OauthGrant)
    → presented db now h ≡ some (r, g)
    → (find_refresh h db.refreshes ≡ some r)
      × (now < r.expires_at)
      × (find_grant r.grant_id db.grants ≡ some g)
unfolding presented
presented-find db now h r g e = live db now (find_refresh h db.refreshes) r g e

pub found-presented :
    (db : Tables) (now : ℕ) (h : Text) (r : RefreshToken) (g : OauthGrant)
    → find_refresh h db.refreshes ≡ some r
    → now < r.expires_at
    → find_grant r.grant_id db.grants ≡ some g
    → presented db now h ≡ some (r, g)
unfolding presented if_live with_grant
found-presented db now h r g e l f = rw (e, lt→ltb now r.expires_at l, f) refl

-- The access token that a grant gives carries what was consented to, its lists written afresh.
abbrev pub IsConsented : OauthGrant → ApiToken → Type 0
IsConsented g t =
    (t.user_id ≡ g.user_id)
    × (t.scopes ≡ join_scopes (split_scopes g.scopes))
    × (t.form_ids ≡ join_scopes (split_scopes g.form_ids))
    × (t.grant_id ≡ g.id)

chosen : (b : Bool) (x y : Tables) → (if b then none else some x) ≡ some y → x ≡ y
chosen true x y e = ground arith
chosen false x y e = cc e

minted :
    (digest : Text → Text) (now : ℕ) (fresh : Fresh) (g : OauthGrant) (db made : Tables)
    → mint_tokens digest now fresh g db ≡ some made
    → (made.grants ≡ db.grants)
      × ((t : ApiToken) × (made.tokens ≡ db.tokens ++ t ∷ []) × IsConsented g t)
      × ((r : RefreshToken) × (made.refreshes ≡ db.refreshes ++ r ∷ []))
unfolding mint_tokens
minted digest now fresh g db made e =
    let same = chosen _ _ made e in
    (
      ap (λ d. d.grants) (sym same),
      (_, ap (λ d. d.tokens) (sym same), (refl, refl, refl, refl)),
      (_, ap (λ d. d.refreshes) (sym same)),
    )

-- A refresh that gave tokens, taken apart.
record IsRotation (digest : Text → Text) (db made : Tables) (now : ℕ) (raw client id : Text)
    (fresh : Fresh) : Type 0 where
  row : RefreshToken
  grant : OauthGrant
  given : (raw == []) ≡ false
  found : presented db now (digest raw) ≡ some (row, grant)
  bound : (grant.client_id == client) ≡ true
  unused : row.used ≡ false
  named : grant.id ≡ id
  result :
      mint_tokens digest now fresh grant
        (record db { refreshes = spend_refresh row.token_hash db.refreshes })
      ≡ some made

refresh_by-IsRotation :
    (digest : Text → Text) (db made : Tables) (now : ℕ) (raw client id : Text) (fresh : Fresh)
    (o : Option (RefreshToken × OauthGrant))
    → (raw == []) ≡ false
    → presented db now (digest raw) ≡ o
    → refresh_by digest db now client fresh o ≡ (made, issued id)
    → IsRotation digest db made now raw client id fresh
unfolding refresh_by
refresh_by-IsRotation digest db made now raw client id fresh none n f e = ground arith
refresh_by-IsRotation digest db made now raw client id fresh (some (r, g)) n f e =
    elim (Bool-cases (g.client_id == client)) [
      | inr b ↦ ground (arith, rw b at e)
      | inl b ↦ elim (Bool-cases r.used) [
        | inl u ↦ ground (arith, rw (b, u) at e)
        | inr u ↦
            let e' = rw (b, u) at e in
            let (named, made_so) = committed-issued db g.id id _ (ap (λ r. r.1) e') in
            record {
              row = r;
              grant = g;
              given = n;
              found = f;
              bound = b;
              unused = u;
              named = named;
              result = made_so ∙ ap (λ r. some r.0) e';
            }
      ]
    ]

refresh_grant-IsRotation :
    (digest : Text → Text) (db made : Tables) (now : ℕ) (raw client id : Text) (fresh : Fresh)
    → refresh_grant digest db now raw client fresh ≡ (made, issued id)
    → IsRotation digest db made now raw client id fresh
unfolding refresh_grant
refresh_grant-IsRotation digest db made now raw client id fresh e = elim (Bool-cases (raw == [])) [
  | inl n ↦ ground (arith, rw n at e)
  | inr n ↦ refresh_by-IsRotation digest db made now raw client id fresh _ n refl (rw n at e)
]

-- The row and its grant, as a refresh finds them after that one.
presented-after :
    (digest : Text → Text) (db made : Tables) (now later : ℕ) (raw client id : Text) (fresh : Fresh)
    (p : IsRotation digest db made now raw client id fresh)
    → later < p.row.expires_at
    → presented made later (digest raw) ≡ some (record p.row { used = true }, p.grant)
presented-after digest db made now later raw client id fresh p l =
    let (row, _, grant) = presented-find db now (digest raw) p.row p.grant p.found in
    let (grants, _, (more, refreshes)) = minted digest now fresh p.grant _ made p.result in
    let h = find_refresh-hash (digest raw) db.refreshes p.row row in
    found-presented made later (digest raw) (record p.row { used = true }) p.grant
      (ap (find_refresh (digest raw)) refreshes
        ∙ ap (λ k. find_refresh (digest raw) (spend_refresh k db.refreshes ++ more ∷ [])) h
        ∙ find-spend_refresh (digest raw) db.refreshes (more ∷ []) p.row row)
      l (ap (find_grant p.row.grant_id) grants ∙ grant)

other_client :
    (c client stranger : Text)
    → (c == client) ≡ true
    → (stranger == client) ≡ false
    → (c == stranger) ≡ false
other_client c client stranger h k =
    ground (arith, eq_iff c client, eq_iff c stranger, eq_iff stranger client)

presented-again :
    (digest : Text → Text) (made : Tables) (later : ℕ) (raw caller : Text) (other : Fresh)
    (r : RefreshToken) (g : OauthGrant)
    → (raw == []) ≡ false
    → presented made later (digest raw) ≡ some (r, g)
    → refresh_grant digest made later raw caller other
      ≡ refresh_by digest made later caller other (some (r, g))
unfolding refresh_grant
presented-again digest made later raw caller other r g n e =
    rw n (ap (refresh_by digest made later caller other) e)

owner_again :
    (digest : Text → Text) (made : Tables) (later : ℕ) (caller : Text) (other : Fresh)
    (r : RefreshToken) (g : OauthGrant)
    → (g.client_id == caller) ≡ true
    → r.used ≡ true
    → refresh_by digest made later caller other (some (r, g))
      ≡ (replayed r.grant_id made, refresh_reused)
unfolding refresh_by
owner_again digest made later caller other r g b u = rw (b, u) refl

stranger_again :
    (digest : Text → Text) (made : Tables) (later : ℕ) (caller : Text) (other : Fresh)
    (r : RefreshToken) (g : OauthGrant)
    → (g.client_id == caller) ≡ false
    → refresh_by digest made later caller other (some (r, g)) ≡ (made, not_found)
unfolding refresh_by
stranger_again digest made later caller other r g b = rw b refl

-- A refresh token works once. If it gave tokens for the grant `id` to `client`, its row `r` was unused,
-- and until that row expires the same token is answered to `client` as reused, which leaves no token, no
-- refresh token and no grant of `id`, an id assumed not to be empty, while any other client is told that
-- there is no such token and changes nothing.
pub refresh_grant-once :
    (digest : Text → Text) (db made : Tables) (now later : ℕ) (raw client stranger id : Text)
    (fresh other : Fresh) (r : RefreshToken)
    → refresh_grant digest db now raw client fresh ≡ (made, issued id)
    → find_refresh (digest raw) db.refreshes ≡ some r
    → later < r.expires_at
    → (id == []) ≡ false
    → (stranger == client) ≡ false
    → (r.used ≡ false)
      × ((refresh_grant digest made later raw client other).1 ≡ refresh_reused)
      × IsRevoked id (refresh_grant digest made later raw client other).0
      × (refresh_grant digest made later raw stranger other ≡ (made, not_found))
refresh_grant-once digest db made now later raw client stranger id fresh other r e f l n s =
    let p = refresh_grant-IsRotation digest db made now raw client id fresh e in
    let (row, _, granted) = presented-find db now (digest raw) p.row p.grant p.found in
    let same : p.row ≡ r = cc (row, f) in
    let used = record p.row { used = true } in
    let seen =
      presented-after digest db made now later raw client id fresh p
        (subst (λ r. later < r.expires_at) (sym same) l) in
    let owner =
      presented-again digest made later raw client other used p.grant p.given seen
      ∙ owner_again digest made later client other used p.grant p.bound refl
      ∙ ap (λ i. (replayed i made, refresh_reused))
          (sym (find_grant-id p.row.grant_id db.grants p.grant granted) ∙ p.named) in
    let not_bound : (p.grant.client_id == stranger) ≡ false =
      other_client p.grant.client_id client stranger p.bound s in
    (
      ap (λ r. r.used) (sym same) ∙ p.unused,
      ap (λ r. r.1) owner,
      subst (λ r. IsRevoked id r.0) (sym owner) (replayed-IsRevoked id made n),
      presented-again digest made later raw stranger other used p.grant p.given seen
          ∙ stranger_again digest made later stranger other used p.grant not_bound,
    )

-- A refresh that gives tokens gives one access token, with the user, the scopes and the forms of the
-- grant, a grant that was made to this client, and it changes no grant.
pub refresh_grant-IsConsented :
    (digest : Text → Text) (db made : Tables) (now : ℕ) (raw client id : Text) (fresh : Fresh)
    → refresh_grant digest db now raw client fresh ≡ (made, issued id)
    → (g : OauthGrant) × (t : ApiToken) × (find_grant id db.grants ≡ some g)
      × (g.client_id ≡ client)
      × (made.tokens ≡ db.tokens ++ t ∷ [])
      × IsConsented g t
      × (made.grants ≡ db.grants)
refresh_grant-IsConsented digest db made now raw client id fresh e =
    let p = refresh_grant-IsRotation digest db made now raw client id fresh e in
    let (_, _, granted) = presented-find db now (digest raw) p.row p.grant p.found in
    let (grants, (t, tokens, consented), _) = minted digest now fresh p.grant _ made p.result in
    let at_id = sym (find_grant-id p.row.grant_id db.grants p.grant granted) ∙ p.named in
    (
      p.grant,
      t,
      subst (λ i. find_grant i db.grants ≡ some p.grant) at_id granted,
      eq_sound p.grant.client_id client p.bound,
      tokens,
      consented,
      grants,
    )
