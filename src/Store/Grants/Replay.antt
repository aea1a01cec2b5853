-- ===== src/Store/Grants/Replay.antt =====
-- internal/store/oauth.go: a code works once, and showing it again takes back what it gave.
use dsforms.Common.{
  ℕ, ltb, if◌then◌else◌, Bool-cases, Option-cases, keep, any, Text, eq_iff, ◌==◌, ◌≡◌, refl, sym,
  ap, ◌∙◌, subst, ◌≢◌, inl, inr, Bool, true, false, ◌&&◌, not, Option, none, some, List, [], ◌∷◌,
  arith,
}
use dsforms.Store.Grants.{
  AuthCode, OauthGrant, Tables, Fresh, issued, not_found, code_reused, code_rejected, revoke_grant,
  revoke_all, replace_grants, replayed, find_code, update_code, spent, tied, mint_tokens, grant_of,
  granted, committed, exchange_by, exchange_auth_code,
}

changed : (AuthCode → AuthCode) → Option AuthCode → Option AuthCode
changed change none = none
changed change (some c) = some (change c)

find-update_code :
    (h : Text) (change : AuthCode → AuthCode) (codes : List AuthCode)
    → ((c : AuthCode) → (change c).code_hash ≡ c.code_hash)
    → find_code h (update_code h change codes) ≡ changed change (find_code h codes)
unfolding find_code update_code changed
find-update_code h change [] same = refl
find-update_code h change (c ∷ codes) same = elim (Bool-cases (c.code_hash == h)) [
  | inl e ↦ rw e (
      ap (λ k. if k == h then some (change c) else find_code h (update_code h change codes))
        (same c)
      ∙ rw e refl)
  | inr e ↦ rw e (rw e (find-update_code h change codes same))
]

codes-revoke_all :
    (grants : List OauthGrant) (db : Tables) → (revoke_all grants db).codes ≡ db.codes
unfolding revoke_all revoke_grant
codes-revoke_all [] db = refl
codes-revoke_all (g ∷ grants) db = codes-revoke_all grants (revoke_grant g.id db)

find_code-hash :
    (h : Text) (codes : List AuthCode) (c : AuthCode) → find_code h codes ≡ some c → c.code_hash ≡ h
unfolding find_code
find_code-hash h [] c e = ground arith
find_code-hash h (d ∷ codes) c e = ground (arith, find_code-hash h codes c, eq_iff d.code_hash h)

codes-replace_grants :
    (client user : Text) (db : Tables) → (replace_grants client user db).codes ≡ db.codes
unfolding replace_grants
codes-replace_grants client user db =
    codes-revoke_all (keep (λ c. (c.client_id == client) && (c.user_id == user)) db.grants) db

find-granted :
    (id : Text) (c : AuthCode) (db : Tables)
    → find_code c.code_hash db.codes ≡ some c
    → find_code c.code_hash (granted id c db).codes ≡ some (tied id (spent c))
unfolding granted changed
find-granted id c db e =
    find-update_code c.code_hash (tied id) _ (λ d. refl)
    ∙ ap (λ codes. changed (tied id) (find_code c.code_hash codes)) (codes-replace_grants _ _ _)
    ∙ ap (changed (tied id))
        (find-update_code c.code_hash spent db.codes (λ d. refl) ∙ ap (changed spent) e)

codes-mint_tokens :
    (digest : Text → Text) (now : ℕ) (fresh : Fresh) (g : OauthGrant) (db made : Tables)
    → mint_tokens digest now fresh g db ≡ some made
    → db.codes ≡ made.codes
unfolding mint_tokens
codes-mint_tokens digest now fresh g db made e = ground arith

pub committed-issued :
    (db : Tables) (id g : Text) (o : Option Tables)
    → (committed db id o).1 ≡ issued g
    → (id ≡ g) × (o ≡ some (committed db id o).0)
unfolding committed
committed-issued db id g none e = ground arith
committed-issued db id g (some made) e = (ground arith, refl)

committed-rejected :
    (db : Tables) (id : Text) (o : Option Tables) → (committed db id o).1 ≢ code_rejected
unfolding committed
committed-rejected db id none = λ e. ground arith
committed-rejected db id (some made) = λ e. ground arith

-- The row of a code after an exchange that got as far as the caller's check.
spent-after :
    (digest : Text → Text) (db : Tables) (now : ℕ) (accept : AuthCode → Bool) (fresh : Fresh)
    (c : AuthCode)
    → find_code c.code_hash db.codes ≡ some c
    → ((g : Text)
        → (exchange_by digest db now accept fresh (some c)).1 ≡ issued g
        → find_code c.code_hash (exchange_by digest db now accept fresh (some c)).0.codes
          ≡ some (tied g (spent c)))
      × ((exchange_by digest db now accept fresh (some c)).1 ≡ code_rejected
          → find_code c.code_hash (exchange_by digest db now accept fresh (some c)).0.codes
            ≡ some (spent c))
unfolding exchange_by changed
spent-after digest db now accept fresh c e = elim (Bool-cases c.used) [
  | inl u ↦ rw u (λ g h. ground arith, λ h. ground arith)
  | inr u ↦ elim (Bool-cases (ltb now c.expires_at)) [
    | inr l ↦ rw (l, u) (λ g h. ground arith, λ h. ground arith)
    | inl l ↦ elim (Bool-cases (accept c)) [
      | inr a ↦
          rw (a, l, u)
            (
              λ g h. ground arith,
              λ h. find-update_code c.code_hash spent db.codes (λ d. refl) ∙ ap (changed spent) e,
            )
      | inl a ↦ elim (Bool-cases (any (λ g. g.id == fresh.grant_id) db.grants)) [
        | inl k ↦ rw (k, a, l, u) (λ g h. ground arith, λ h. ground arith)
        | inr k ↦
            rw (k, a, l, u)
              (
                λ g h.
                    let grant = grant_of fresh.grant_id c in
                    let base = granted fresh.grant_id c db in
                    let (same, made) =
                      committed-issued db fresh.grant_id g (mint_tokens digest now fresh grant base)
                        h in
                    ap (find_code c.code_hash)
                      (sym (codes-mint_tokens digest now fresh grant base _ made))
                    ∙ find-granted fresh.grant_id c db e
                    ∙ ap (λ i. some (tied i (spent c))) same,
                λ h. ground (arith, committed-rejected db fresh.grant_id _ h),
              )
      ]
    ]
  ]
]

used_again :
    (digest : Text → Text) (db : Tables) (now : ℕ) (raw : Text) (accept : AuthCode → Bool)
    (fresh : Fresh) (c : AuthCode)
    → (raw == []) ≡ false
    → find_code (digest raw) db.codes ≡ some c
    → c.used ≡ true
    → exchange_auth_code digest db now raw accept fresh ≡ (replayed c.grant_id db, code_reused)
unfolding exchange_auth_code exchange_by
used_again digest db now raw accept fresh c r e u =
    ap
      (λ b.
        if b
        then (db, not_found)
        else exchange_by digest db now accept fresh (find_code (digest raw) db.codes))
      r
    ∙ ap (exchange_by digest db now accept fresh) e
    ∙ rw u refl

-- An exchange that gave tokens or was refused by the check had the row of its code.
exchanged-row :
    (digest : Text → Text) (db : Tables) (now : ℕ) (raw : Text) (accept : AuthCode → Bool)
    (fresh : Fresh)
    → (exchange_auth_code digest db now raw accept fresh).1 ≢ not_found
    → ((raw == []) ≡ false)
      × (c : AuthCode) × (find_code (digest raw) db.codes ≡ some c)
      × (exchange_auth_code digest db now raw accept fresh
          ≡ exchange_by digest db now accept fresh (some c))
unfolding exchange_auth_code exchange_by
exchanged-row digest db now raw accept fresh h = elim (Bool-cases (raw == [])) [
  | inl e ↦ ground (
    arith,
    h (
        ap
          (λ b.
            (if b
              then (db, not_found)
              else exchange_by digest db now accept fresh (find_code (digest raw) db.codes)).1)
          e),
  )
  | inr e ↦
      let go : exchange_auth_code digest db now raw accept fresh
          ≡ exchange_by digest db now accept fresh (find_code (digest raw) db.codes) =
        ap
          (λ b.
            if b
            then (db, not_found)
            else exchange_by digest db now accept fresh (find_code (digest raw) db.codes))
          e in
      elim (Option-cases (find_code (digest raw) db.codes)) [
        | inl n ↦
            ground (arith, h (ap (λ r. r.1) (go ∙ ap (exchange_by digest db now accept fresh) n)))
        | inr (c, f) ↦ (e, c, f, go ∙ ap (exchange_by digest db now accept fresh) f)
      ]
]

-- No token, refresh token or grant of a grant id is left.
abbrev pub IsRevoked : Text → Tables → Type 0
IsRevoked g db =
    (any (λ t. t.grant_id == g) db.tokens ≡ false)
    × (any (λ r. r.grant_id == g) db.refreshes ≡ false)
    × (any (λ c. c.id == g) db.grants ≡ false)

any-keep-same : {A : Type 0} (p : A → Bool) (xs : List A) → any p (keep (λ x. not (p x)) xs) ≡ false
any-keep-same p [] = refl
any-keep-same p (x ∷ xs) = ground (arith, any-keep-same p xs)

pub replayed-IsRevoked : (g : Text) (db : Tables) → (g == []) ≡ false → IsRevoked g (replayed g db)
unfolding replayed revoke_grant
replayed-IsRevoked g db e = rw e (
  any-keep-same (λ t. t.grant_id == g) db.tokens,
  any-keep-same (λ r. r.grant_id == g) db.refreshes,
  any-keep-same (λ c. c.id == g) db.grants,
)

row-after :
    (digest : Text → Text) (db : Tables) (now : ℕ) (raw : Text) (accept : AuthCode → Bool)
    (fresh : Fresh) (c : AuthCode)
    → find_code (digest raw) db.codes ≡ some c
    → ((g : Text)
        → (exchange_by digest db now accept fresh (some c)).1 ≡ issued g
        → find_code (digest raw) (exchange_by digest db now accept fresh (some c)).0.codes
          ≡ some (tied g (spent c)))
      × ((exchange_by digest db now accept fresh (some c)).1 ≡ code_rejected
          → find_code (digest raw) (exchange_by digest db now accept fresh (some c)).0.codes
            ≡ some (spent c))
row-after digest db now raw accept fresh c e =
    subst
      (λ h.
        find_code h db.codes ≡ some c
        → ((g : Text)
            → (exchange_by digest db now accept fresh (some c)).1 ≡ issued g
            → find_code h (exchange_by digest db now accept fresh (some c)).0.codes
              ≡ some (tied g (spent c)))
          × ((exchange_by digest db now accept fresh (some c)).1 ≡ code_rejected
              → find_code h (exchange_by digest db now accept fresh (some c)).0.codes
                ≡ some (spent c)))
      (find_code-hash (digest raw) db.codes c e) (spent-after digest db now accept fresh c) e

-- A code works once. After an exchange that gave tokens or that the caller's check refused, the same
-- code is answered as reused at any time after, whatever the check says then. If it gave tokens,
-- showing it again leaves no token, no refresh token and no grant of the grant that it made, whose id
-- is assumed not to be empty.
pub exchange_auth_code-once :
    (digest : Text → Text) (db : Tables) (now later : ℕ) (raw : Text)
    (accept again : AuthCode → Bool) (fresh other : Fresh) (made : Tables)
    → (exchange_auth_code digest db now raw accept fresh ≡ (made, code_rejected)
        → (exchange_auth_code digest made later raw again other).1 ≡ code_reused)
      × ((g : Text)
          → exchange_auth_code digest db now raw accept fresh ≡ (made, issued g)
          → (g == []) ≡ false
          → ((exchange_auth_code digest made later raw again other).1 ≡ code_reused)
            × IsRevoked g (exchange_auth_code digest made later raw again other).0)
exchange_auth_code-once digest db now later raw accept again fresh other made = (
  λ h.
      let (some_raw, c, e, by) =
        exchanged-row digest db now raw accept fresh (λ n. ground (arith, h, n)) in
      let row = (row-after digest db now raw accept fresh c e).1 (ap (λ r. r.1) (sym by ∙ h)) in
      ap (λ r. r.1)
        (used_again digest made later raw again other (spent c) some_raw
          (ap (λ r. find_code (digest raw) r.0.codes) (sym h ∙ by) ∙ row) refl),
  λ g h named.
      let (some_raw, c, e, by) =
        exchanged-row digest db now raw accept fresh (λ n. ground (arith, h, n)) in
      let row = (row-after digest db now raw accept fresh c e).0 g (ap (λ r. r.1) (sym by ∙ h)) in
      let second =
        used_again digest made later raw again other (tied g (spent c)) some_raw
          (ap (λ r. find_code (digest raw) r.0.codes) (sym h ∙ by) ∙ row) refl in
      (
        ap (λ r. r.1) second,
        subst (λ r. IsRevoked g r.0) (sym second) (replayed-IsRevoked g made named),
      ),
)
