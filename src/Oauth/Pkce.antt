-- ===== src/Oauth/Pkce.antt =====
-- internal/oauth/pkce.go. SHA-256 followed by unpadded base64url is a parameter, as the bytes it
-- writes.
use dsforms.Common.{
  ℕ, ◌=ℕ◌, leb, if◌then◌else◌, length, all, Text, eq_sound, eq_refl, ◌==◌, ◌≡◌, sym, ◌↔◌, Bool,
  true, false, ◌&&◌, ◌||◌, not, arith,
}

unfoldable pub is_base64_url : ℕ → Bool
is_base64_url c =
    (leb b'A' c && leb c b'Z')
    || (leb b'a' c && leb c b'z')
    || (leb b'0' c && leb c b'9')
    || (c =ℕ b'-')
    || (c =ℕ b'_')

unfoldable pub valid_challenge : Text → Bool
unfolding is_base64_url
valid_challenge challenge = (length challenge =ℕ 43) && all is_base64_url challenge

unfoldable pub verifier_byte : ℕ → Bool
unfolding is_base64_url
verifier_byte c = is_base64_url c || (c =ℕ b'.') || (c =ℕ b'~')

unfoldable pub valid_verifier : Text → Bool
unfolding verifier_byte
valid_verifier v = leb 43 (length v) && leb (length v) 128 && all verifier_byte v

-- `S256Challenge`, from the two library calls.
unfoldable pub s256_challenge : (Text → Text) → (Text → Text) → Text → Text
s256_challenge sha256 base64 verifier = base64 (sha256 verifier)

unfoldable pub verify_pkce : (Text → Text) → (Text → Text) → Text → Text → Bool
unfolding valid_challenge valid_verifier s256_challenge
verify_pkce sha256 base64 verifier challenge =
    if not (valid_verifier verifier) || not (valid_challenge challenge)
    then false
    else s256_challenge sha256 base64 verifier == challenge

-- When every digest is written as a valid challenge, as SHA-256 in unpadded base64url is, a verifier
-- answers a challenge exactly if it is well formed and the challenge is its digest.
verify_pkce_iff :
    (sha256 base64 : Text → Text)
    → ((v : Text) → valid_challenge (base64 (sha256 v)) ≡ true)
    → (verifier challenge : Text)
    → (verify_pkce sha256 base64 verifier challenge ≡ true)
      ↔ ((valid_verifier verifier ≡ true) × (challenge ≡ s256_challenge sha256 base64 verifier))
unfolding verify_pkce s256_challenge
verify_pkce_iff sha256 base64 base64-valid verifier challenge = (
  λ h. (ground arith, sym (eq_sound (base64 (sha256 verifier)) challenge (ground arith))),
  λ (v, e). rw (e, v, base64-valid verifier) (eq_refl (base64 (sha256 verifier))),
)
