-- ===== src/Screen/Addr/Canonical.antt =====
-- The form in which addresses are compared.
use dsforms.Common.{
  ℕ, Option-cases, Text, bytes, contains, occurrences, trim_space, lower_byte, ascii_lower, ◌≡◌,
  refl, inl, inr, true, false, some, [], ◌∷◌, arith,
}
use dsforms.Screen.Platform.{Platform}
use dsforms.Screen.Addr.{shaped, after_at, has_blank, canonical}

lower_byte_idem : (c : ℕ) → lower_byte (lower_byte c) ≡ lower_byte c
unfolding lower_byte
lower_byte_idem c = ground arith

pub ascii_lower_idem : (s : Text) → ascii_lower (ascii_lower s) ≡ ascii_lower s
unfolding ascii_lower
ascii_lower_idem [] = refl
ascii_lower_idem (c ∷ s) = cc (lower_byte_idem c, ascii_lower_idem s)

-- What the comparison form promises.
pub record IsCanonical (a : Text) : Type 0 where
  pub folded : ascii_lower a ≡ a
  pub one_at : occurrences a (bytes "@") ≡ 1
  pub no_blank : has_blank a ≡ false
  pub dotted : contains (after_at a) (bytes ".") ≡ true

shaped-IsCanonical : (s a : Text) → shaped (ascii_lower s) ≡ some a → IsCanonical a
unfolding shaped
shaped-IsCanonical s a h = record {
  folded = ground (arith, ascii_lower_idem s);
  one_at = ground arith;
  no_blank = ground arith;
  dotted = ground arith;
}

canonical-cases :
    (p : Platform) (v a : Text)
    → canonical p v ≡ some a
    → (s : Text) × (shaped (ascii_lower s) ≡ some a)
unfolding canonical
canonical-cases p v a h = elim (Option-cases (p.parse_address (trim_space v))) [
  | inl e ↦ (trim_space v, ground arith)
  | inr (address, e) ↦ elim (Option-cases (shaped (ascii_lower address))) [
    | inl e' ↦ (trim_space v, ground arith)
    | inr (b, e') ↦ (address, ground arith)
  ]
]

-- Whatever the parser of the platform answers, a comparison form has one `@`, none of the three
-- blanks, a dot behind the `@`, and no capital letter of ASCII.
canonical-IsCanonical : (p : Platform) (v a : Text) → canonical p v ≡ some a → IsCanonical a
canonical-IsCanonical p v a h = let (s, e) = canonical-cases p v a h in shaped-IsCanonical s a e
