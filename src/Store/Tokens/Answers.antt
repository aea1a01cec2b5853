-- ===== src/Store/Tokens/Answers.antt =====
-- internal/store/apitokens.go: which tokens are accepted, and whose a deletion takes.
use dsforms.Common.{
  ℕ, Bool-cases, Option-cases, all, first, first-holds, Text, eq_iff, ◌==◌, ◌≡◌, refl, inl, inr,
  true, false, ◌&&◌, ◌||◌, not, Option, none, some, List, [], ◌∷◌, arith,
}
use dsforms.Store.Grants.{ApiToken, Tables}
use dsforms.Store.Tokens.{expired, is_live, get_api_token}

-- `Expired` and the condition of the SELECT are one test.
is_live-expired :
    (now : ℕ) (h : Text) (t : ApiToken)
    → is_live now h t ≡ ((t.token_hash == h) && not (expired t now))
unfolding is_live expired
is_live-expired now h t = ground arith

-- What an answer tells: a token was stored under the digest and has not expired, or nothing was shown, or
-- every token under the digest has expired.
abbrev pub IsAnswer : (Text → Text) → Tables → ℕ → Text → Option ApiToken → Type 0
IsAnswer digest db now raw none =
    ((raw == []) || all (λ t. not (t.token_hash == digest raw) || expired t now) db.tokens) ≡ true
IsAnswer digest db now raw (some t) =
    ((raw == []) ≡ false) × (t.token_hash ≡ digest raw) × (expired t now ≡ false)

none-IsAnswer :
    (now : ℕ) (h : Text) (ts : List ApiToken)
    → first (is_live now h) ts ≡ none
    → all (λ t. not (t.token_hash == h) || expired t now) ts ≡ true
none-IsAnswer now h [] e = refl
none-IsAnswer now h (t ∷ ts) e = ground (arith, is_live-expired now h t, none-IsAnswer now h ts)

found-IsAnswer :
    (digest : Text → Text) (db : Tables) (now : ℕ) (raw : Text)
    → (raw == []) ≡ false
    → IsAnswer digest db now raw (first (is_live now (digest raw)) db.tokens)
found-IsAnswer digest db now raw n =
    elim (Option-cases (first (is_live now (digest raw)) db.tokens)) [
      | inl e ↦ rw (e, n) (none-IsAnswer now (digest raw) db.tokens e)
      | inr (t, e) ↦
          let live = first-holds (is_live now (digest raw)) db.tokens t e in
          rw e (
            n,
            ground
                (arith, eq_iff t.token_hash (digest raw), is_live-expired now (digest raw) t, live),
            ground (arith, is_live-expired now (digest raw) t, live),
          )
    ]

-- A token is accepted only if it is stored under the digest of what was shown and has not expired, and
-- it is refused only if nothing was shown or every token under that digest has expired.
pub get_api_token-IsAnswer :
    (digest : Text → Text) (db : Tables) (now : ℕ) (raw : Text)
    → IsAnswer digest db now raw (get_api_token digest db now raw)
unfolding get_api_token
get_api_token-IsAnswer digest db now raw = elim (Bool-cases (raw == [])) [
  | inl n ↦ rw n (rw n refl)
  | inr n ↦ rw n (found-IsAnswer digest db now raw n)
]
