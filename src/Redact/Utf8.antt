-- ===== src/Redact/Utf8.antt =====
-- What `utf8.DecodeRuneInString` reads at the head of a text, as internal/redact uses it.
use dsforms.Common.{
  ◌<◌, ℕ, zero, suc, ◌+◌, ◌-◌, ◌*◌, ◌≤◌, ◌=ℕ◌, ltb, leb, if◌then◌else◌, Bool-cases, length, Text,
  ◌≡◌, inl, inr, Bool, true, ◌&&◌, ◌||◌, not, Option, none, some, [], ◌∷◌, ◌++◌, arith,
}

-- A byte of a character after its first one.
is_tail : ℕ → Bool
is_tail c = leb 128 c && leb c 191

two : ℕ → Text → Option (ℕ × ℕ)
unfolding is_tail
two c [] = none
two c (d ∷ s) = if is_tail d then some ((c - 192) * 64 + (d - 128), 2) else none

-- The bounds on the second byte leave out long forms and surrogates.
is_three : ℕ → ℕ → ℕ → Bool
unfolding is_tail
is_three c d e =
    is_tail d && is_tail e && (leb 160 d || not (c =ℕ 224)) && (leb d 159 || not (c =ℕ 237))

three : ℕ → Text → Option (ℕ × ℕ)
unfolding is_three
three c [] = none
three c (d ∷ []) = none
three c (d ∷ e ∷ s) =
    if is_three c d e then some ((c - 224) * 4096 + (d - 128) * 64 + (e - 128), 3) else none

is_four : ℕ → ℕ → ℕ → ℕ → Bool
unfolding is_tail
is_four c d e f =
    is_tail d
    && is_tail e
    && is_tail f
    && (leb 144 d || not (c =ℕ 240))
    && (leb d 143 || not (c =ℕ 244))

four : ℕ → Text → Option (ℕ × ℕ)
unfolding is_four
four c [] = none
four c (d ∷ []) = none
four c (d ∷ e ∷ []) = none
four c (d ∷ e ∷ f ∷ s) =
    if is_four c d e f
    then some ((c - 240) * 262144 + (d - 128) * 4096 + (e - 128) * 64 + (f - 128), 4)
    else none

pub data Lead : Type 0 where
  ascii of_two of_three of_four stray : Lead

lead : ℕ → Lead
lead c =
    if ltb c 128
    then ascii
    else if leb 194 c && leb c 223
    then of_two
    else if leb 224 c && leb c 239
    then of_three
    else if leb 240 c && leb c 244
    then of_four
    else stray

decode_by : Lead → ℕ → Text → Option (ℕ × ℕ)
unfolding two three four
decode_by ascii c s = some (c, 1)
decode_by of_two c s = two c s
decode_by of_three c s = three c s
decode_by of_four c s = four c s
decode_by stray c s = none

-- The character and its size in bytes; `none` is a byte that is not valid, which the source sees as
-- `RuneError` of size 1.
unfoldable pub decode : Text → Option (ℕ × ℕ)
unfolding lead decode_by
decode [] = none
decode (c ∷ s) = decode_by (lead c) c s

-- The bytes after the first of a character.
abbrev pub AreTails : ℕ → Text → Type 0
AreTails zero s = Unit
AreTails (suc n) [] = Unit
AreTails (suc n) (c ∷ s) = (128 ≤ c) × AreTails n s

two-tails :
    (c : ℕ) (s : Text) (r n : ℕ) → two c s ≡ some (r, n) → (n ≡ 2) × AreTails 1 s × (1 ≤ length s)
unfolding two is_tail
two-tails c [] r n e = ground arith
two-tails c (d ∷ s) r n e = ground arith

tails_three : (c d e : ℕ) → is_three c d e ≡ true → (128 ≤ d) × (128 ≤ e)
unfolding is_three is_tail
tails_three c d e h = ground arith

three-tails :
    (c : ℕ) (s : Text) (r n : ℕ) → three c s ≡ some (r, n) → (n ≡ 3) × AreTails 2 s × (2 ≤ length s)
unfolding three
three-tails c [] r n e = ground arith
three-tails c (d ∷ []) r n e = ground arith
three-tails c (d ∷ f ∷ s) r n e = elim (Bool-cases (is_three c d f)) [
  | inl y ↦ let (a, b) = tails_three c d f y in ground arith
  | inr y ↦ ground arith
]

tails_four : (c d e f : ℕ) → is_four c d e f ≡ true → (128 ≤ d) × (128 ≤ e) × (128 ≤ f)
unfolding is_four is_tail
tails_four c d e f h = ground arith

four-tails :
    (c : ℕ) (s : Text) (r n : ℕ) → four c s ≡ some (r, n) → (n ≡ 4) × AreTails 3 s × (3 ≤ length s)
unfolding four
four-tails c [] r n e = ground arith
four-tails c (d ∷ []) r n e = ground arith
four-tails c (d ∷ f ∷ []) r n e = ground arith
four-tails c (d ∷ f ∷ g ∷ s) r n e = elim (Bool-cases (is_four c d f g)) [
  | inl y ↦ let (a, b, k) = tails_four c d f g y in ground arith
  | inr y ↦ ground arith
]

fits_by :
    (l : Lead) (c : ℕ) (s : Text) (r n : ℕ)
    → decode_by l c s ≡ some (r, n)
    → (m : ℕ) × (n ≡ suc m) × AreTails m s × (m ≤ length s)
unfolding decode_by
fits_by ascii c s r n e = (0, ground arith, tt, omega arith)
fits_by of_two c s r n e = let (k, t, l) = two-tails c s r n e in (1, omega (arith, k), t, l)
fits_by of_three c s r n e = let (k, t, l) = three-tails c s r n e in (2, omega (arith, k), t, l)
fits_by of_four c s r n e = let (k, t, l) = four-tails c s r n e in (3, omega (arith, k), t, l)
fits_by stray c s r n e = ground arith

-- The character at the head of a text is there in full, and the bytes after its first are not ASCII.
pub decode-fits :
    (c : ℕ) (s : Text) (r n : ℕ)
    → decode (c ∷ s) ≡ some (r, n)
    → (m : ℕ) × (n ≡ suc m) × AreTails m s × (m ≤ length s)
unfolding decode
decode-fits c s r n e = fits_by (lead c) c s r n e

append_by :
    (l : Lead) (c : ℕ) (s t : Text) (r n : ℕ)
    → decode_by l c s ≡ some (r, n)
    → decode_by l c (s ++ t) ≡ some (r, n)
unfolding decode_by two three four
append_by ascii c s t r n e = e
append_by of_two c [] t r n e = ground arith
append_by of_two c (d ∷ s) t r n e = e
append_by of_three c [] t r n e = ground arith
append_by of_three c (d ∷ []) t r n e = ground arith
append_by of_three c (d ∷ f ∷ s) t r n e = e
append_by of_four c [] t r n e = ground arith
append_by of_four c (d ∷ []) t r n e = ground arith
append_by of_four c (d ∷ f ∷ []) t r n e = ground arith
append_by of_four c (d ∷ f ∷ g ∷ s) t r n e = e
append_by stray c s t r n e = ground arith

-- What follows a character does not matter for reading it.
pub decode-append :
    (c : ℕ) (s t : Text) (r n : ℕ)
    → decode (c ∷ s) ≡ some (r, n)
    → decode (c ∷ (s ++ t)) ≡ some (r, n)
unfolding decode
decode-append c s t r n e = append_by (lead c) c s t r n e

prefix_by :
    (l : Lead) (c : ℕ) (a b : Text) (r m : ℕ)
    → decode_by l c (a ++ b) ≡ some (r, suc m)
    → m ≤ length a
    → decode_by l c a ≡ some (r, suc m)
unfolding decode_by two three four
prefix_by ascii c a b r m e h = e
prefix_by of_two c [] b r m e h = absurd (omega (arith, (two-tails c b r (suc m) e).0))
prefix_by of_two c (d ∷ a) b r m e h = e
prefix_by of_three c [] b r m e h = absurd (omega (arith, (three-tails c b r (suc m) e).0))
prefix_by of_three c (d ∷ []) b r m e h =
    absurd (omega (arith, (three-tails c (d ∷ b) r (suc m) e).0))
prefix_by of_three c (d ∷ f ∷ a) b r m e h = e
prefix_by of_four c [] b r m e h = absurd (omega (arith, (four-tails c b r (suc m) e).0))
prefix_by of_four c (d ∷ []) b r m e h =
    absurd (omega (arith, (four-tails c (d ∷ b) r (suc m) e).0))
prefix_by of_four c (d ∷ f ∷ []) b r m e h =
    absurd (omega (arith, (four-tails c (d ∷ f ∷ b) r (suc m) e).0))
prefix_by of_four c (d ∷ f ∷ g ∷ a) b r m e h = e
prefix_by stray c a b r m e h = ground arith

-- A character is read alike from every beginning of a text that it fits in.
pub decode-prefix :
    (c : ℕ) (a b : Text) (r m : ℕ)
    → decode (c ∷ (a ++ b)) ≡ some (r, suc m)
    → m ≤ length a
    → decode (c ∷ a) ≡ some (r, suc m)
unfolding decode
decode-prefix c a b r m e h = prefix_by (lead c) c a b r m e h

low_two : (c : ℕ) (s : Text) (r n : ℕ) → 194 ≤ c → two c s ≡ some (r, n) → 128 ≤ r
unfolding two is_tail
low_two c [] r n h e = ground arith
low_two c (d ∷ s) r n h e = ground (arith, h)

low_three : (c : ℕ) (s : Text) (r n : ℕ) → 224 ≤ c → three c s ≡ some (r, n) → 128 ≤ r
unfolding three is_three is_tail
low_three c [] r n h e = ground arith
low_three c (d ∷ []) r n h e = ground arith
low_three c (d ∷ f ∷ s) r n h e = ground (arith, h)

low_four : (c : ℕ) (s : Text) (r n : ℕ) → 240 ≤ c → four c s ≡ some (r, n) → 128 ≤ r
unfolding four is_four is_tail
low_four c [] r n h e = ground arith
low_four c (d ∷ []) r n h e = ground arith
low_four c (d ∷ f ∷ []) r n h e = ground arith
low_four c (d ∷ f ∷ g ∷ s) r n h e = ground (arith, h)

ascii_by : (c : ℕ) (s : Text) (r n : ℕ) → decode_by (lead c) c s ≡ some (r, n) → r < 128 → c ≡ r
unfolding lead decode_by
ascii_by c s r n e h = ground (arith, low_two c s r n, low_three c s r n, low_four c s r n)

-- An ASCII character is the byte itself.
pub decode-ascii : (c : ℕ) (s : Text) (r n : ℕ) → decode (c ∷ s) ≡ some (r, n) → r < 128 → c ≡ r
unfolding decode
decode-ascii c s r n e h = ascii_by c s r n e h
