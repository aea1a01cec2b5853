-- ===== src/Screen/Score/Gibberish.antt =====
-- internal/screen/internal/score/gibberish.go: tokens that no human typed. A ratio `a / b < 0.20` is
-- read as `5 * a < b`, and `a / b <= 0.33` as `100 * a <= 33 * b`.
use dsforms.Common.{
  ℕ, ◌+◌, ◌*◌, ◌=ℕ◌, ltb, leb, if◌then◌else◌, length, keep, any, first, count, Text, bytes, ◌==◌,
  contains, cut, fields, Bool, true, false, ◌&&◌, ◌||◌, not, Option, none, some, List, [], ◌∷◌,
}
use dsforms.Screen.Platform.{Platform}

abbrev gibberish_token_min_len : ℕ
gibberish_token_min_len = 6

abbrev gibberish_case_transitions_min : ℕ
gibberish_case_transitions_min = 3

-- The code points of the vowels.
abbrev latin_vowels : List ℕ
latin_vowels =
    bytes
      "aeiouáàâäãåāăąạảấầẩẫậắằẳẵặæéèêëēĕėęěẹẻẽếềểễệíìîïīĭįıịỉĩóòôöõøōŏőơọỏốồổỗộớờởỡợœúùûüūŭůűųưụủứừửữựũýÿȳỳỷỹỵ"

is_vowel : Platform → ℕ → Bool
is_vowel p r = any (λ v. v =ℕ p.rune_lower r) latin_vowels

-- The counters of the loop over a token.
pub record Tally : Type 0 where
  pub letters : ℕ
  pub vowels : ℕ
  pub transitions : ℕ
  pub prev_was_upper : Bool
  pub has_prev : Bool

differ : Bool → Bool → Bool
differ true b = not b
differ false b = b

unfoldable pub tally_rune : Platform → Tally → ℕ → Tally
unfolding is_vowel differ
tally_rune p t r = if not (p.is_upper r) && not (p.is_lower r) then t else record {
  letters = t.letters + 1;
  vowels = t.vowels + (if is_vowel p r then 1 else 0);
  transitions =
      t.transitions + (if t.has_prev && differ (p.is_upper r) t.prev_was_upper then 1 else 0);
  prev_was_upper = p.is_upper r;
  has_prev = true;
}

unfoldable pub tally_runes : Platform → Tally → List ℕ → Tally
unfolding tally_rune
tally_runes p t [] = t
tally_runes p t (r ∷ rs) = tally_runes p (tally_rune p t r) rs

abbrev no_tally : Tally
no_tally = record {
  letters = 0;
  vowels = 0;
  transitions = 0;
  prev_was_upper = false;
  has_prev = false;
}

unfoldable pub is_gibberish_token : Platform → Text → Bool
unfolding tally_runes
is_gibberish_token p token =
    if ltb (length (p.runes token)) gibberish_token_min_len
    then false
    else let t = tally_runes p no_tally (p.runes token) in
      if t.letters =ℕ 0
      then false
      else if leb gibberish_case_transitions_min t.transitions
      then true
      else ltb (5 * t.vowels) t.letters

unfoldable pub is_token_too_non_latin : Platform → Text → Bool
is_token_too_non_latin p token =
    let letters = keep p.is_letter (p.runes token) in
    let total = length letters in
    let latin = count p.is_latin letters in ltb 0 total && leb (100 * latin) (33 * total)

unfoldable pub contains_link : Text → Bool
unfolding contains
contains_link lower = contains lower (bytes "http") || contains lower (bytes "www.")

is_url_shaped_token : Platform → Text → Bool
unfolding contains_link
is_url_shaped_token p token = contains_link (p.to_lower token)

unfoldable pub is_email_shaped_token : Text → Bool
unfolding cut contains
is_email_shaped_token token = elim (cut b'@' token) [
  | none ↦ false
  | some (local, domain) ↦
      if (local == []) || (domain == [])
      then false
      else if contains domain (bytes "@")
      then false
      else contains domain (bytes ".")
]

-- The loop body of `gibberishToken`: a token that is passed over, or judged.
unfoldable pub is_synthetic : Platform → Text → Bool
unfolding is_url_shaped_token is_email_shaped_token is_token_too_non_latin is_gibberish_token
is_synthetic p token =
    if is_url_shaped_token p token || is_email_shaped_token token
    then false
    else if is_token_too_non_latin p token
    then false
    else is_gibberish_token p token

unfoldable pub gibberish_token : Platform → Text → Option Text
unfolding fields is_synthetic
gibberish_token p value = first (is_synthetic p) (fields value)

unfoldable pub field_has_gibberish : Platform → Text → Bool
unfolding gibberish_token
field_has_gibberish p value = elim (gibberish_token p value) [ none ↦ false | some token ↦ true ]
