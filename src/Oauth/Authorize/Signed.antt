-- ===== src/Oauth/Authorize/Signed.antt =====
-- internal/oauth/authorize.go: whom and what a signature on the consent form vouches for, and which
-- authorization requests are let through.
use dsforms.Common.{
  ℕ, ◌+◌, ◌^◌, ◌≤◌, ◌<◌, ◌=ℕ◌, ltb, if◌then◌else◌, Bool-cases, length, Text, bytes, eq_sound,
  eq_refl, eq_complete, eq_iff, ◌==◌, has_prefix, contains, cut, ◌≡◌, refl, ◌≢◌, ◌↔◌, ◌⊎◌, inl, inr,
  true, false, none, some, [], ◌∷◌, ◌++◌, arith,
}
use dsforms.Common.Int.{pos, ltb_ℤ}
use dsforms.Oauth.Pkce.{valid_challenge}
use dsforms.Oauth.Authorize.{
  unsupported_response_type, AuthorizeRequest, Codec, message, sign, verify, verify_at, consent_ttl,
  parse_authorize_request, same_resource,
}
use dsforms.Oauth.Authorize.Encoding.{told, Fits, message_injective}

cut-append :
    (sep : ℕ) (s t : Text) → contains s (sep ∷ []) ≡ false → cut sep (s ++ sep ∷ t) ≡ some (s, t)
unfolding cut contains has_prefix
cut-append sep [] t h = ground arith
cut-append sep (c ∷ s) t h = ground (arith, cut-append sep s t)

-- What is documented of the libraries: decimal numbers and hexadecimal text read back, and a decimal
-- number has no dot.
pub record IsCodec (c : Codec) : Type 0 where
  pub parse-format : (n : ℕ) → n < 2 ^ 63 → c.parse_int (c.format_int (pos n)) ≡ some (pos n)
  pub no_dot : (n : ℕ) → contains (c.format_int (pos n)) (bytes ".") ≡ false
  pub unhex-hex : (t : Text) → c.unhex (c.hex t) ≡ some t

-- Two messages that the key signs alike.
abbrev pub Collision : Codec → Text → Type 0
Collision c key = (m : Text) × (n : Text) × (m ≢ n) × (c.hmac key m ≡ c.hmac key n)

ltb_pos : (a b : ℕ) → ltb_ℤ (pos a) (pos b) ≡ ltb a b
ltb_pos a b = ground arith

verify-sign :
    (c : Codec) (key : Text) (now later : ℕ) (u v : Text) (r s : AuthorizeRequest)
    → IsCodec c
    → now + consent_ttl < 2 ^ 63
    → (length key =ℕ 0) ≡ false
    → verify c key later (sign c key now u r) v s ≡ (
        if ltb (now + consent_ttl) later
        then false
        else c.hmac key (message (pos (now + consent_ttl)) u r)
          == c.hmac key (message (pos (now + consent_ttl)) v s))
unfolding verify sign verify_at
verify-sign c key now later u v r s lib small has_key =
    let until = now + consent_ttl in
    let mac = c.hmac key (message (pos until) u r) in
    rw
      (
        has_key,
        cut-append b'.' (c.format_int (pos until)) (c.hex mac) (lib.no_dot until),
        lib.parse-format until small,
        lib.unhex-hex mac,
        ltb_pos until later,
      )
      refl

-- A signature made at `now` for a user and a request, shown at `later`: it verifies for the same user
-- and the same request up to ten minutes on. If it verifies for any user and any request, it is not
-- older than that, and the user and the request, scopes apart, are the signed ones, or two
-- different messages have the same HMAC. The clock stays below 2 ^ 63 seconds, the texts below
-- 2 ^ 64 bytes, and the key is not empty.
pub verify-sign_sound :
    (c : Codec) (key : Text) (now later : ℕ) (u v : Text) (r s : AuthorizeRequest)
    → IsCodec c
    → now + consent_ttl < 2 ^ 63
    → (length key =ℕ 0) ≡ false
    → Fits (told u r)
    → Fits (told v s)
    → (later ≤ now + consent_ttl → verify c key later (sign c key now u r) u r ≡ true)
      × (verify c key later (sign c key now u r) v s ≡ true
          → (later ≤ now + consent_ttl) × ((told u r ≡ told v s) ⊎ Collision c key))
verify-sign_sound c key now later u v r s lib small has_key p q =
    let until = now + consent_ttl in
    (
      λ h. ground (
        arith,
        verify-sign c key now later u u r r lib small has_key,
        eq_refl (c.hmac key (message (pos until) u r)),
      ),
      λ h.
          let same : c.hmac key (message (pos until) u r) ≡ c.hmac key (message (pos until) v s) =
            eq_sound _ _ (ground (arith, verify-sign c key now later u v r s lib small has_key)) in
          (
            ground (arith, verify-sign c key now later u v r s lib small has_key),
            elim (Bool-cases (message (pos until) u r == message (pos until) v s)) [
              | inl e ↦ inl (message_injective _ _ u v r s p q (eq_sound _ _ e)).1
              | inr e ↦ inr (
                message (pos until) u r,
                message (pos until) v s,
                λ d. ground (arith, eq_complete _ _ d),
                same,
              )
            ],
          ),
    )

-- A request is let through exactly if it asks for a code, its state is at most 1024 bytes, its
-- challenge is well formed under S256, and it names no resource or this server's, up to a slash at
-- the end. The state that goes back to the client has at most 1024 bytes, unless the complaint is an
-- unsupported response type.
pub parse_authorize_request_iff :
    (get : Text → Text) (resource : Text)
    → (((parse_authorize_request get resource).1 ≡ none) ↔ (
        (get (bytes "response_type") ≡ bytes "code")
        × (length (get (bytes "state")) ≤ 1024)
        × (get (bytes "code_challenge_method") ≡ bytes "S256")
        × (valid_challenge (get (bytes "code_challenge")) ≡ true)
        × ((get (bytes "resource") ≡ [])
            ⊎ (same_resource (get (bytes "resource")) resource ≡ true))))
      × ((parse_authorize_request get resource).1 ≢ some unsupported_response_type
          → length (parse_authorize_request get resource).0.state ≤ 1024)
unfolding parse_authorize_request
parse_authorize_request_iff get resource = (
  (
    λ h. (
      eq_sound (get (bytes "response_type")) (bytes "code") (ground arith),
      ground arith,
      eq_sound (get (bytes "code_challenge_method")) (bytes "S256") (ground arith),
      ground arith,
      elim (Bool-cases (get (bytes "resource") == [])) [
        | inl e ↦ inl (eq_sound (get (bytes "resource")) [] e)
        | inr e ↦ inr (ground arith)
      ],
    ),
    λ (code, short, method, challenge, target).
        ground
          (arith, eq_complete _ _ code, eq_complete _ _ method, eq_iff (get (bytes "resource")) []),
  ),
  λ h. ground arith,
)
