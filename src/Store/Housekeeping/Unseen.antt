-- ===== src/Store/Housekeeping/Unseen.antt =====
-- internal/store/oauth.go: what the cleaning leaves as it was.
use dsforms.Common.{
  ℕ, ◌+◌, ◌≤◌, ◌=ℕ◌, ltb, leb, if◌then◌else◌, ◌>>=◌, Bool-cases, keep, any, all, first,
  keep-implied, Text, eq_sound, ◌==◌, ◌≡◌, refl, sym, ap, ◌∙◌, subst, inl, inr, Bool, true, false,
  ◌&&◌, ◌||◌, not, Option, none, some, List, [], ◌∷◌, arith,
}
use dsforms.Store.Housekeeping.{unused_client_ttl, spent_code_retention}
use dsforms.Store.Grants.{AuthCode, ApiToken, RefreshToken, Client, Tables}
use dsforms.Store.Tokens.{get_api_token, is_live}
use dsforms.Store.Rotation.{find_refresh, presented, if_live, with_grant}
use dsforms.Store.Housekeeping.{clean_expired_oauth, delete_clients, has_grant, stale_client}

first-keep :
    {A : Type 0} (p q : A → Bool) (xs : List A)
    → ((x : A) → p x ≡ true → q x ≡ true)
    → first p (keep q xs) ≡ first p xs
first-keep p q [] h = refl
first-keep p q (x ∷ xs) h = ground (arith, h x, first-keep p q xs h)

-- `token_hash` is the primary key.
abbrev pub IsKeyed : List RefreshToken → Type 0
IsKeyed [] = Unit
IsKeyed (r ∷ rs) = (find_refresh r.token_hash rs ≡ none) × IsKeyed rs

find_keep-none :
    (h : Text) (q : RefreshToken → Bool) (rs : List RefreshToken)
    → find_refresh h rs ≡ none
    → find_refresh h (keep q rs) ≡ none
unfolding find_refresh
find_keep-none h q [] e = refl
find_keep-none h q (r ∷ rs) e = ground (arith, find_keep-none h q rs)

abbrev still_good : ℕ → RefreshToken → Bool
still_good now r = ltb now r.expires_at

-- The live row of a digest survives the removal of expired rows.
live_row : ℕ → Text → List RefreshToken → Option RefreshToken
live_row later h rs = find_refresh h rs >>= if_live later

live_row-keep :
    (now later : ℕ) (h : Text) (rs : List RefreshToken)
    → now ≤ later
    → IsKeyed rs
    → live_row later h (keep (still_good now) rs) ≡ live_row later h rs
unfolding live_row find_refresh if_live
live_row-keep now later h [] l k = refl
live_row-keep now later h (r ∷ rs) l k = elim (Bool-cases (r.token_hash == h)) [
  | inl e ↦ elim (Bool-cases (ltb now r.expires_at)) [
    | inl g ↦ rw (g, e) refl
    | inr g ↦
        let gone = subst (λ h. find_refresh h rs ≡ none) (eq_sound r.token_hash h e) k.0 in
        let late : ltb later r.expires_at ≡ false = ground (arith, g, l) in
        rw (g, e, late) (ap (λ o. o >>= if_live later) (find_keep-none h (still_good now) rs gone))
  ]
  | inr e ↦ elim (Bool-cases (ltb now r.expires_at)) [
    | inl g ↦ rw (g, e) (live_row-keep now later h rs l k.1)
    | inr g ↦ rw (g, e) (live_row-keep now later h rs l k.1)
  ]
]

row_first :
    (later : ℕ) (db : Tables) (o : Option RefreshToken)
    → (do r ← o; r ← if_live later r; with_grant db r) ≡ ((o >>= if_live later) >>= with_grant db)
row_first later db none = refl
row_first later db (some r) = refl

presented-live_row :
    (db : Tables) (later : ℕ) (h : Text)
    → presented db later h ≡ (live_row later h db.refreshes >>= with_grant db)
unfolding presented live_row
presented-live_row db later h = row_first later db (find_refresh h db.refreshes)

presented-clean :
    (db : Tables) (now later : ℕ) (h : Text)
    → now ≤ later
    → IsKeyed db.refreshes
    → presented (clean_expired_oauth db now) later h ≡ presented db later h
unfolding clean_expired_oauth delete_clients with_grant
presented-clean db now later h l k =
    presented-live_row (clean_expired_oauth db now) later h
    ∙ ap (λ o. o >>= with_grant db) (live_row-keep now later h db.refreshes l k)
    ∙ sym (presented-live_row db later h)

abbrev in_use : ℕ → ApiToken → Bool
in_use now t = not (not (t.grant_id == []) && not (t.expires_at =ℕ 0) && leb t.expires_at now)

live_in_use :
    (now later : ℕ) (h : Text) (t : ApiToken)
    → now ≤ later
    → is_live later h t ≡ true
    → in_use now t ≡ true
unfolding is_live
live_in_use now later h t l e = ground (arith, e, l)

granted_stays :
    (db : Tables) (now : ℕ) (c : Client)
    → has_grant db c ≡ true
    → not (stale_client db now c) ≡ true
unfolding stale_client
granted_stays db now c e = ground (arith, e)

-- A client that is older than an hour and was never approved.
abbrev pub is_abandoned : Tables → ℕ → Client → Bool
is_abandoned db now k = ltb (k.created_at + unused_client_ttl) now && not (has_grant db k)

-- A code that expired less than a day ago, or not yet, and whose client is not such a client.
abbrev pub is_recent : Tables → ℕ → AuthCode → Bool
is_recent db now c =
    ltb now (c.expires_at + spent_code_retention)
    && not (any (λ k. is_abandoned db now k && (k.id == c.client_id)) db.clients)

recent_stays :
    (db : Tables) (now : ℕ)
    → keep (is_recent db now) (clean_expired_oauth db now).codes ≡ keep (is_recent db now) db.codes
unfolding clean_expired_oauth delete_clients stale_client
recent_stays db now =
    keep-implied (is_recent db now) _ _ (λ c e. ground (arith, e))
    ∙ keep-implied (is_recent db now) (λ c. ltb now (c.expires_at + spent_code_retention)) db.codes
        (λ c e. ground (arith, e))

all-keep :
    {A : Type 0} (p q : A → Bool) (xs : List A)
    → ((x : A) → q x ≡ true → p x ≡ true)
    → all p (keep q xs) ≡ true
all-keep p q [] h = refl
all-keep p q (x ∷ xs) h = ground (arith, h x, all-keep p q xs h)

keep-all : {A : Type 0} (p q : A → Bool) (xs : List A) → all p xs ≡ true → all p (keep q xs) ≡ true
keep-all p q [] h = refl
keep-all p q (x ∷ xs) h = ground (arith, h, keep-all p q xs)

-- Nothing that is past its time is left.
abbrev pub IsSwept : Tables → Tables → ℕ → Type 0
IsSwept db cleaned now =
    (all (λ r. ltb now r.expires_at) cleaned.refreshes ≡ true)
    × (all (λ c. ltb now (c.expires_at + spent_code_retention)) cleaned.codes ≡ true)
    × (all (λ t. (t.grant_id == []) || (t.expires_at =ℕ 0) || ltb now t.expires_at) cleaned.tokens
        ≡ true)
    × (all (λ k. not (is_abandoned db now k)) cleaned.clients ≡ true)

clean_expired_oauth-IsSwept : (db : Tables) (now : ℕ) → IsSwept db (clean_expired_oauth db now) now
unfolding clean_expired_oauth delete_clients stale_client
clean_expired_oauth-IsSwept db now =
    let timely : AuthCode → Bool = λ c. ltb now (c.expires_at + spent_code_retention) in
    let kept : AuthCode → Bool =
      λ c. not (any (λ k. is_abandoned db now k && (k.id == c.client_id)) db.clients) in
    (
      all-keep _ _ db.refreshes (λ r e. e),
      keep-all timely kept (keep timely db.codes) (all-keep timely timely db.codes (λ c e. e)),
      all-keep _ (in_use now) db.tokens (λ t e. ground (arith, e)),
      all-keep _ _ db.clients (λ k e. e),
    )

-- Cleaning at `now` changes no answer to an access token or a refresh token from then on: each is
-- found or not found as before, provided that no two rows of refresh tokens have one digest. No
-- grant goes, no client that has a grant, no token that was made by hand, and no code, spent or not,
-- until a day after it expired, unless its client was abandoned: older than an hour and never
-- approved. What is past its time goes: expired refresh tokens and access tokens of grants, codes a
-- day after they expired, and abandoned clients.
pub clean_expired_oauth_unseen :
    (digest : Text → Text) (db : Tables) (now later : ℕ) (raw h : Text)
    → now ≤ later
    → IsKeyed db.refreshes
    → (get_api_token digest (clean_expired_oauth db now) later raw
        ≡ get_api_token digest db later raw)
      × (presented (clean_expired_oauth db now) later h ≡ presented db later h)
      × ((clean_expired_oauth db now).grants ≡ db.grants)
      × (keep (has_grant db) (clean_expired_oauth db now).clients ≡ keep (has_grant db) db.clients)
      × (keep (λ t. t.grant_id == []) (clean_expired_oauth db now).tokens
          ≡ keep (λ t. t.grant_id == []) db.tokens)
      × (keep (is_recent db now) (clean_expired_oauth db now).codes
          ≡ keep (is_recent db now) db.codes)
      × IsSwept db (clean_expired_oauth db now) now
unfolding clean_expired_oauth delete_clients get_api_token stale_client
clean_expired_oauth_unseen digest db now later raw h l k = (
  ap (λ o. if raw == [] then none else o)
      (first-keep (is_live later (digest raw)) (in_use now) db.tokens
        (λ t. live_in_use now later (digest raw) t l)),
  presented-clean db now later h l k,
  refl,
  keep-implied (has_grant db) _ db.clients (λ c e. granted_stays db now c e),
  keep-implied (λ t. t.grant_id == []) (in_use now) db.tokens (λ t e. rw e refl),
  recent_stays db now,
  clean_expired_oauth-IsSwept db now,
)
