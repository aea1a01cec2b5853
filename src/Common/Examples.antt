-- ===== src/Common/Examples.antt =====
-- Runs of the string functions.
use dsforms.Common.{
  bytes, has_suffix, occurrences, trim_suffix, after_last, split, join, trim_space, fields, ◌≡◌,
  refl, true, some, [], ◌∷◌, ◌++◌,
}

strings_run :
    (trim_space (bytes "  a b\n") ≡ bytes "a b")
    × (trim_space (0xc2 ∷ 0xa0 ∷ bytes "x" ++ 0xe2 ∷ 0x80 ∷ 0xa8 ∷ []) ≡ bytes "x")
    × (split b',' (bytes "a,,b") ≡ bytes "a" ∷ [] ∷ bytes "b" ∷ [])
    × (join (bytes ", ") (bytes "a" ∷ bytes "b" ∷ []) ≡ bytes "a, b")
    × (occurrences (bytes "aaaab") (bytes "aa") ≡ 2)
    × (after_last b'@' (bytes "a@b@c") ≡ some (bytes "c"))
    × (has_suffix (bytes "mail.example") (bytes ".example") ≡ true)
    × (fields (bytes " ab  c ") ≡ bytes "ab" ∷ bytes "c" ∷ [])
    × (trim_suffix (bytes "/x/") (bytes "/") ≡ bytes "/x")
unfolding trim_space split join occurrences after_last has_suffix trim_suffix fields
strings_run = (refl, refl, refl, refl, refl, refl, refl, refl, refl)
