-- ===== src/Handler/Token/Vouched.antt =====
-- internal/handler/oauth.go: what stands behind the tokens that are handed out.
use dsforms.Common.{
  ℕ, ◌<◌, ltb, if◌then◌else◌, ltb→lt, Bool-cases, Option-cases, Text, bytes, eq_sound, ◌==◌, mem,
  ◌≡◌, refl, ◌≢◌, ◌⊎◌, inl, inr, Bool, true, false, not, Option, none, some, List, [], arith,
}
use dsforms.Store.Grants.{
  AuthCode, OauthGrant, RefreshToken, Tables, Fresh, Reply, issued, not_found, code_reused,
  code_rejected, refresh_reused, constraint, exchange_by, exchange_auth_code, find_code,
}
use dsforms.Store.Rotation.Reuse.{presented-find}
use dsforms.Store.Rotation.{find_refresh, find_grant, refresh_grant, refresh_by, presented}
use dsforms.Handler.Token.{
  fails_lookup, presented_id, get_oauth_client, TokenRequest, token, granted_to,
  grant_authorization_code, verify_pkce, Client, refresh, exchange_code, Hashes, accept,
  grant_refresh_token, Fault, no_fault, lookup_fails, transaction_fails, revocation_fails, tokens,
  under, answer_of, write_tokens, grant_error,
}

answer_of-tokens :
    (types : List Text) (fresh : Fresh) (db : Tables) (lost : Bool) (reply : Reply)
    (access scopes : Text) (ttl : ℕ) (shown : Option Text)
    → (answer_of types fresh (db, lost, reply)).1 ≡ tokens access ttl scopes shown
    → ((g : Text) × (reply ≡ issued g))
      × (access ≡ fresh.access)
      × (shown ≡ (if mem grant_refresh_token types then some fresh.refresh else none))
unfolding answer_of write_tokens grant_error
answer_of-tokens types fresh db lost (issued g) a s t o e = ((g, refl), cc e, cc e)
answer_of-tokens types fresh db true not_found a s t o e = ground arith
answer_of-tokens types fresh db false not_found a s t o e = ground arith
answer_of-tokens types fresh db true code_reused a s t o e = ground arith
answer_of-tokens types fresh db false code_reused a s t o e = ground arith
answer_of-tokens types fresh db true code_rejected a s t o e = ground arith
answer_of-tokens types fresh db false code_rejected a s t o e = ground arith
answer_of-tokens types fresh db true refresh_reused a s t o e = ground arith
answer_of-tokens types fresh db false refresh_reused a s t o e = ground arith
answer_of-tokens types fresh db lost constraint a s t o e = ground arith

under-issued :
    (fault : Fault) (raw g : Text) (revokes : Bool) (db after : Tables) (reply : Reply)
    → (under fault raw revokes db (after, reply)).2 ≡ issued g
    → reply ≡ issued g
unfolding under
under-issued no_fault raw g revokes db after reply e = e
under-issued lookup_fails raw g revokes db after reply e = e
under-issued transaction_fails raw g revokes db after reply e = elim (Bool-cases (raw == [])) [
  | inl b ↦ rw b at e
  | inr b ↦ ground (arith, rw b at e)
]
under-issued revocation_fails raw g true db after (issued h) e = e
under-issued revocation_fails raw g true db after not_found e = e
under-issued revocation_fails raw g true db after code_reused e = e
under-issued revocation_fails raw g true db after code_rejected e = e
under-issued revocation_fails raw g true db after refresh_reused e = e
under-issued revocation_fails raw g true db after constraint e = e
under-issued revocation_fails raw g false db after reply e = e

-- The conditions in the way of the last of four branches, when the others give no grant.
last_taken :
    (a b c : Bool) (w x y z : Tables × Reply) (g : Text)
    → w.1 ≢ issued g
    → x.1 ≢ issued g
    → y.1 ≢ issued g
    → (if a then w else if not b then x else if not c then y else z).1 ≡ issued g
    → (a ≡ false) × (b ≡ true) × (c ≡ true)
last_taken true b c w x y z g p q r e = absurd (p e)
last_taken false false c w x y z g p q r e = absurd (q e)
last_taken false true false w x y z g p q r e = absurd (r e)
last_taken false true true w x y z g p q r e = (refl, refl, refl)

exchange_by-issued :
    (digest : Text → Text) (db : Tables) (now : ℕ) (accept : AuthCode → Bool) (fresh : Fresh)
    (g : Text) (c : AuthCode)
    → (exchange_by digest db now accept fresh (some c)).1 ≡ issued g
    → (c.used ≡ false) × (now < c.expires_at) × (accept c ≡ true)
unfolding exchange_by
exchange_by-issued digest db now accept fresh g c e =
    let (u, l, a) =
      last_taken c.used (ltb now c.expires_at) (accept c) _ _ _ _ g (λ e. ground arith)
        (λ e. ground arith) (λ e. ground arith) e in
    (u, ltb→lt now c.expires_at l, a)

exchange_auth_code-issued :
    (digest : Text → Text) (db : Tables) (now : ℕ) (raw : Text) (accept : AuthCode → Bool)
    (fresh : Fresh) (g : Text)
    → (exchange_auth_code digest db now raw accept fresh).1 ≡ issued g
    → (c : AuthCode) × (find_code (digest raw) db.codes ≡ some c)
      × (c.used ≡ false)
      × (now < c.expires_at)
      × (accept c ≡ true)
unfolding exchange_auth_code
exchange_auth_code-issued digest db now raw accept fresh g e = elim (Bool-cases (raw == [])) [
  | inl b ↦ ground (arith, rw b at e)
  | inr b ↦ elim (Option-cases (find_code (digest raw) db.codes)) [
    | inl n ↦ ground (arith, rw (b, n) at e)
    | inr (c, f) ↦
        let (u, l, a) = exchange_by-issued digest db now accept fresh g c (rw (b, f) at e) in
        (c, f, u, l, a)
  ]
]

refresh_by-issued :
    (digest : Text → Text) (db : Tables) (now : ℕ) (client g : Text) (fresh : Fresh)
    (r : RefreshToken) (o : OauthGrant)
    → (refresh_by digest db now client fresh (some (r, o))).1 ≡ issued g
    → (r.used ≡ false) × (o.client_id ≡ client)
unfolding refresh_by
refresh_by-issued digest db now client g fresh r o e = elim (Bool-cases (o.client_id == client)) [
  | inl k ↦ elim (Bool-cases r.used) [
    | inl u ↦ ground (arith, rw (k, u) at e)
    | inr u ↦ (u, eq_sound o.client_id client k)
  ]
  | inr k ↦ ground (arith, rw k at e)
]

refresh_grant-issued :
    (digest : Text → Text) (db : Tables) (now : ℕ) (raw client g : Text) (fresh : Fresh)
    → (refresh_grant digest db now raw client fresh).1 ≡ issued g
    → (r : RefreshToken) × (o : OauthGrant) × (presented db now (digest raw) ≡ some (r, o))
      × (r.used ≡ false)
      × (o.client_id ≡ client)
unfolding refresh_grant
refresh_grant-issued digest db now raw client g fresh e = elim (Bool-cases (raw == [])) [
  | inl b ↦ ground (arith, rw b at e)
  | inr b ↦ elim (Option-cases (presented db now (digest raw))) [
    | inl n ↦ ground (arith, rw (b, n) at e)
    | inr ((r, o), f) ↦
        let (u, k) = refresh_by-issued digest db now client g fresh r o (rw (b, f) at e) in
        (r, o, f, u, k)
  ]
]

accepted :
    (hashes : Hashes) (form : Text → Text) (k : Client) (c : AuthCode)
    → accept hashes form k c ≡ true
    → (c.client_id ≡ k.id)
      × (c.redirect_uri ≡ form (bytes "redirect_uri"))
      × (verify_pkce hashes.sha256 hashes.base64 (form (bytes "code_verifier")) c.code_challenge
          ≡ true)
unfolding accept
accepted hashes form k c e = (
  eq_sound c.client_id k.id (ground arith),
  eq_sound c.redirect_uri (form (bytes "redirect_uri")) (ground arith),
  ground arith,
)

-- A live code that was issued to the client, with its address and its proof key.
abbrev pub IsCodeShown : Hashes → ℕ → (Text → Text) → Tables → Client → Type 0
IsCodeShown hashes now form db k =
    (form (bytes "grant_type") ≡ grant_authorization_code)
    × (c : AuthCode) × (find_code (hashes.digest (form (bytes "code"))) db.codes ≡ some c)
    × (c.used ≡ false)
    × (now < c.expires_at)
    × (c.client_id ≡ k.id)
    × (c.redirect_uri ≡ form (bytes "redirect_uri"))
    × (verify_pkce hashes.sha256 hashes.base64 (form (bytes "code_verifier")) c.code_challenge
        ≡ true)

-- A live refresh token of a grant to the client, which registered for such tokens.
abbrev pub IsRefreshShown : Hashes → ℕ → (Text → Text) → Tables → Client → List Text → Type 0
IsRefreshShown hashes now form db k types =
    (mem grant_refresh_token types ≡ true)
    × (t : RefreshToken) × (o : OauthGrant) × (find_refresh
          (hashes.digest (form (bytes "refresh_token"))) db.refreshes
        ≡ some t)
    × (now < t.expires_at)
    × (find_grant t.grant_id db.grants ≡ some o)
    × (t.used ≡ false)
    × (o.client_id ≡ k.id)

abbrev pub IsHanded : Fresh → List Text → Text → Option Text → Type 0
IsHanded fresh types access shown =
    (access ≡ fresh.access)
    × (shown ≡ (if mem grant_refresh_token types then some fresh.refresh else none))

exchange_code-tokens :
    (hashes : Hashes) (fault : Fault) (now : ℕ) (fresh : Fresh) (form : Text → Text) (k : Client)
    (types : List Text) (db : Tables) (access scopes : Text) (ttl : ℕ) (shown : Option Text)
    → form (bytes "grant_type") ≡ grant_authorization_code
    → (exchange_code hashes fault now fresh form k types db).1 ≡ tokens access ttl scopes shown
    → IsCodeShown hashes now form db k × IsHanded fresh types access shown
unfolding exchange_code
exchange_code-tokens hashes fault now fresh form k types db access scopes ttl shown g e =
    let raw = form (bytes "code") in
    let ((id, i), a, s) = answer_of-tokens types fresh _ _ _ access scopes ttl shown e in
    let (c, f, u, l, ok) =
      exchange_auth_code-issued hashes.digest db now raw (accept hashes form k) fresh id
        (under-issued fault raw id _ db _ _ i) in
    let (client, uri, proof) = accepted hashes form k c ok in
    ((g, c, f, u, l, client, uri, proof), (a, s))

refresh-tokens :
    (hashes : Hashes) (fault : Fault) (now : ℕ) (fresh : Fresh) (form : Text → Text) (k : Client)
    (types : List Text) (db : Tables) (access scopes : Text) (ttl : ℕ) (shown : Option Text)
    → (refresh hashes fault now fresh form k types db).1 ≡ tokens access ttl scopes shown
    → IsRefreshShown hashes now form db k types × IsHanded fresh types access shown
unfolding refresh
refresh-tokens hashes fault now fresh form k types db access scopes ttl shown e =
    elim (Bool-cases (mem grant_refresh_token types)) [
      | inl m ↦
          let raw = form (bytes "refresh_token") in
          let ((id, i), a, s) =
            answer_of-tokens types fresh _ _ _ access scopes ttl shown (rw m at e) in
          let (t, o, f, u, c) =
            refresh_grant-issued hashes.digest db now raw k.id id fresh
              (under-issued fault raw id _ db _ _ i) in
          let (row, live, grant) = presented-find db now (hashes.digest raw) t o f in
          ((m, t, o, row, live, grant, u, c), (a, s))
      | inr m ↦ ground (arith, rw m at e)
    ]

granted_to-tokens :
    (hashes : Hashes) (fault : Fault) (now : ℕ) (fresh : Fresh) (r : TokenRequest) (db : Tables)
    (k : Client) (uris types : List Text) (access scopes : Text) (ttl : ℕ) (shown : Option Text)
    → (granted_to hashes fault now fresh r db (some (k, uris, types))).1
      ≡ tokens access ttl scopes shown
    → (IsCodeShown hashes now r.form db k ⊎ IsRefreshShown hashes now r.form db k types)
      × IsHanded fresh types access shown
unfolding granted_to
granted_to-tokens hashes fault now fresh r db k uris types access scopes ttl shown e =
    elim (Bool-cases (r.form (bytes "grant_type") == grant_authorization_code)) [
      | inl c ↦
          let (v, h) =
            exchange_code-tokens hashes fault now fresh r.form k types db access scopes ttl shown
              (eq_sound _ _ c) (rw c at e) in
          (inl v, h)
      | inr c ↦ elim (Bool-cases (r.form (bytes "grant_type") == grant_refresh_token)) [
        | inl d ↦
            let (v, h) =
              refresh-tokens hashes fault now fresh r.form k types db access scopes ttl shown
                (rw (c, d) at e) in
            (inr v, h)
        | inr d ↦ ground (arith, rw (c, d) at e)
      ]
    ]

-- Tokens are only answered to a registered client that showed a live, unused code which was issued to
-- it, with the address and the proof of the key that belong to the code, or a live, unused refresh token
-- of a grant of its own, when it registered for those. The access token is the secret drawn for this
-- answer, and the refresh token is shown exactly to a client that registered for it. This holds
-- whatever fails underneath.
pub token_vouched :
    (hashes : Hashes) (fault : Fault) (now : ℕ) (fresh : Fresh) (r : TokenRequest) (db : Tables)
    (access scopes : Text) (ttl : ℕ) (shown : Option Text)
    → (token hashes fault now fresh r db).1 ≡ tokens access ttl scopes shown
    → (k : Client) × (uris : List Text) × (types : List Text) × (get_oauth_client
          (presented_id r)
          db
        ≡ some (k, uris, types))
      × (IsCodeShown hashes now r.form db k ⊎ IsRefreshShown hashes now r.form db k types)
      × IsHanded fresh types access shown
unfolding token
token_vouched hashes fault now fresh r db access scopes ttl shown e = elim (Bool-cases r.parsed) [
  | inl p ↦ elim (Bool-cases (fails_lookup fault)) [
    | inl f ↦ ground (arith, rw (p, f) at e)
    | inr f ↦ elim (Option-cases (get_oauth_client (presented_id r) db)) [
      | inl n ↦ ground (arith, rw (p, f, n) at e)
      | inr ((k, uris, types), n) ↦
          let (v, h) =
            granted_to-tokens hashes fault now fresh r db k uris types access scopes ttl shown
              (rw (p, f, n) at e) in
          (k, uris, types, n, v, h)
    ]
  ]
  | inr p ↦ ground (arith, rw p at e)
]
