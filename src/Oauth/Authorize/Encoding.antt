-- ===== src/Oauth/Authorize/Encoding.antt =====
-- internal/oauth/authorize.go: what `mac` sums tells every field apart.
use dsforms.Common.{
  ℕ, zero, suc, ◌/◌, ◌%◌, ◌^◌, ◌<◌, length, length-append, All, Text, ◌≡◌, refl, List, [], ◌∷◌,
  ◌++◌, arith,
}
use dsforms.Common.Int.{ℤ, pos, negsuc}
use dsforms.Oauth.Authorize.{AuthorizeRequest, big_endian, to_uint64, prefixed, message}

append-split : (xs ys s t : Text) → length xs ≡ length ys → xs ++ s ≡ ys ++ t → (xs ≡ ys) × (s ≡ t)
append-split [] [] s t l e = (refl, e)
append-split [] (y ∷ ys) s t l e = ground arith
append-split (x ∷ xs) [] s t l e = ground arith
append-split (x ∷ xs) (y ∷ ys) s t l e = ground (arith, append-split xs ys s t)

length-big_endian : (k n : ℕ) → length (big_endian k n) ≡ k
unfolding big_endian
length-big_endian zero n = refl
length-big_endian (suc k) n =
    omega
      (arith, length-append (big_endian k (n / 256)) (n % 256 ∷ []), length-big_endian k (n / 256))

div_lt : (k m : ℕ) → m < 256 ^ suc k → m / 256 < 256 ^ k
div_lt k m p = omega arith

big_endian_injective :
    (k m n : ℕ) → m < 256 ^ k → n < 256 ^ k → big_endian k m ≡ big_endian k n → m ≡ n
unfolding big_endian
big_endian_injective zero m n p q e = omega arith
big_endian_injective (suc k) m n p q e =
    let (high, low) =
      append-split (big_endian k (m / 256)) (big_endian k (n / 256)) _ _
        (omega (arith, length-big_endian k (m / 256), length-big_endian k (n / 256))) e in
    let tops = big_endian_injective k _ _ (div_lt k m p) (div_lt k n q) high in
    let last : m % 256 ≡ n % 256 = ground arith in omega arith

-- Each text is shorter than a 64-bit number can say.
abbrev pub Fits : List Text → Type 0
Fits fs = All (λ f. length f < 256 ^ 8) fs

prefixed_injective :
    (fs gs : List Text)
    → length fs ≡ length gs
    → Fits fs
    → Fits gs
    → prefixed fs ≡ prefixed gs
    → fs ≡ gs
unfolding prefixed
prefixed_injective [] [] l p q e = refl
prefixed_injective [] (g ∷ gs) l p q e = ground arith
prefixed_injective (f ∷ fs) [] l p q e = ground arith
prefixed_injective (f ∷ fs) (g ∷ gs) l p q e =
    let (size, more) =
      append-split (big_endian 8 (length f)) (big_endian 8 (length g)) _ _
        (omega (arith, length-big_endian 8 (length f), length-big_endian 8 (length g))) e in
    let (same, rest) = append-split f g _ _ (big_endian_injective 8 _ _ p.0 q.0 size) more in
    cc (same, prefixed_injective fs gs (omega (arith, l)) p.1 q.1 rest)

abbrev pub told : Text → AuthorizeRequest → List Text
told user req =
    user ∷ req.client_id ∷ req.redirect_uri ∷ req.state ∷ req.code_challenge ∷ req.resource ∷ []

to_uint64-lt : (e : ℤ) → to_uint64 e < 256 ^ 8
unfolding to_uint64
to_uint64-lt (pos n) = omega arith
to_uint64-lt (negsuc n) = omega arith

-- What is signed tells everything apart that a consent fixes: equal messages have the same expiry as
-- 64 bits, the same user and, apart from the scopes, the same request. The texts are assumed shorter
-- than 2 ^ 64 bytes.
pub message_injective :
    (e f : ℤ) (u v : Text) (r s : AuthorizeRequest)
    → Fits (told u r)
    → Fits (told v s)
    → message e u r ≡ message f v s
    → (to_uint64 e ≡ to_uint64 f) × (told u r ≡ told v s)
unfolding message
message_injective e f u v r s p q h =
    let (time, rest) =
      append-split (big_endian 8 (to_uint64 e)) (big_endian 8 (to_uint64 f)) _ _
        (omega (arith, length-big_endian 8 (to_uint64 e), length-big_endian 8 (to_uint64 f))) h in
    (
      big_endian_injective 8 _ _ (to_uint64-lt e) (to_uint64-lt f) time,
      prefixed_injective (told u r) (told v s) refl p q rest,
    )
