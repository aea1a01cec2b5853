-- ===== src/Common/Strings.antt =====
-- Go strings: a text is the list of its bytes. The functions of the package `strings` that the
-- program calls, on bytes. `trim_space` trims the white space of Unicode, as `strings.TrimSpace`
-- does, by its UTF-8 encodings.
use Prim.Native.Nat.{ℕ, zero, suc, ◌+◌, ◌-◌}
use Prim.Native.Char.{code}
use Prim.Native.String.{String}
use mathlib.Core.Path.{◌≡◌, refl}
use mathlib.Core.Logic.{◌↔◌}
use mathlib.Core.Bool.{Bool, true, false, ◌&&◌, ◌||◌}
use mathlib.Core.Option.{Option, none, some}
use mathlib.Core.List.{List, [], ◌∷◌, ◌++◌, map, reverse}
use native.Mathlib.Omega.{arith}
use dsforms.Common.Tests.{ltb, leb, ◌=ℕ◌, if◌then◌else◌}
use dsforms.Common.Lists.{drop, length}

abbrev pub Text : Type 0
Text = List ℕ

-- The bytes of an ASCII literal.
abbrev pub bytes : String → Text
bytes String.[] = []
bytes (String.◌∷◌ c s) = code c ∷ bytes s

infix 50 ◌==◌
unfoldable pub ◌==◌ : Text → Text → Bool
[] == [] = true
[] == (d ∷ t) = false
(c ∷ s) == [] = false
(c ∷ s) == (d ∷ t) = (c =ℕ d) && (s == t)

pub eq_sound : (s t : Text) → (s == t) ≡ true → s ≡ t
unfolding ◌==◌
eq_sound [] [] h = refl
eq_sound [] (d ∷ t) h = ground arith
eq_sound (c ∷ s) [] h = ground arith
eq_sound (c ∷ s) (d ∷ t) h = ground (arith, eq_sound s t)

pub eq_refl : (s : Text) → (s == s) ≡ true
unfolding ◌==◌
eq_refl [] = refl
eq_refl (c ∷ s) = ground (arith, eq_refl s)

pub eq_complete : (s t : Text) → s ≡ t → (s == t) ≡ true
eq_complete s t h = mathlib.Core.Path.subst (λ u. (s == u) ≡ true) h (eq_refl s)

pub eq_iff : (s t : Text) → ((s == t) ≡ true) ↔ (s ≡ t)
eq_iff s t = (eq_sound s t, eq_complete s t)

unfoldable pub has_prefix : Text → Text → Bool
has_prefix s [] = true
has_prefix [] (p ∷ ps) = false
has_prefix (c ∷ s) (p ∷ ps) = (c =ℕ p) && has_prefix s ps

unfoldable pub has_suffix : Text → Text → Bool
unfolding has_prefix
has_suffix s suffix = has_prefix (reverse s) (reverse suffix)

unfoldable pub contains : Text → Text → Bool
unfolding has_prefix
contains [] sub = has_prefix [] sub
contains (c ∷ s) sub = has_prefix (c ∷ s) sub || contains s sub

-- Occurrences of a non-empty `sub` that do not overlap; `skip` bytes belong to the last one found.
occurrences_from : ℕ → Text → Text → ℕ
unfolding has_prefix
occurrences_from skip [] sub = 0
occurrences_from (suc skip) (c ∷ s) sub = occurrences_from skip s sub
occurrences_from zero (c ∷ s) sub =
    let hit = has_prefix (c ∷ s) sub in
    (if hit then 1 else 0) + occurrences_from (if hit then length sub - 1 else 0) s sub

unfoldable pub occurrences : Text → Text → ℕ
unfolding occurrences_from
occurrences s sub = occurrences_from 0 s sub

unfoldable pub trim_prefix : Text → Text → Text
unfolding has_prefix
trim_prefix s p = if has_prefix s p then drop (length p) s else s

unfoldable pub trim_suffix : Text → Text → Text
unfolding trim_prefix
trim_suffix s p = reverse (trim_prefix (reverse s) (reverse p))

-- What stands before and after the first `sep`.
unfoldable pub cut : ℕ → Text → Option (Text × Text)
cut sep [] = none
cut sep (c ∷ s) =
    let rest = cut sep s in
    if c =ℕ sep then some ([], s) else elim rest [ none ↦ none | some (a, b) ↦ some (c ∷ a, b) ]

-- What stands after the last `sep`.
unfoldable pub after_last : ℕ → Text → Option Text
after_last sep [] = none
after_last sep (c ∷ s) =
    let rest = after_last sep s in
    elim rest [ none ↦ (if c =ℕ sep then some s else none) | some t ↦ some t ]

abbrev pub push_byte : ℕ → List Text → List Text
push_byte c [] = (c ∷ []) ∷ []
push_byte c (w ∷ ws) = (c ∷ w) ∷ ws

-- `strings.Split` at a separator of one byte.
unfoldable pub split : ℕ → Text → List Text
split sep [] = [] ∷ []
split sep (c ∷ s) = let rest = split sep s in if c =ℕ sep then [] ∷ rest else push_byte c rest

unfoldable pub join : Text → List Text → Text
join sep [] = []
join sep (w ∷ []) = w
join sep (w ∷ v ∷ ws) = w ++ (sep ++ join sep (v ∷ ws))

-- The bytes that a white space character takes at the head of a text, 0 where there is none.
space_width : Text → ℕ
space_width (c ∷ d ∷ e ∷ s) =
    if (leb 9 c && leb c 13) || (c =ℕ 32)
    then 1
    else if (c =ℕ 0xc2) && ((d =ℕ 0x85) || (d =ℕ 0xa0))
    then 2
    else if ((c =ℕ 0xe1) && (d =ℕ 0x9a) && (e =ℕ 0x80))
        || ((c =ℕ 0xe2)
            && (((d =ℕ 0x80)
                  && (leb e 0x8a && leb 0x80 e || (e =ℕ 0xa8) || (e =ℕ 0xa9) || (e =ℕ 0xaf)))
                || ((d =ℕ 0x81) && (e =ℕ 0x9f))))
        || ((c =ℕ 0xe3) && (d =ℕ 0x80) && (e =ℕ 0x80))
    then 3
    else 0
space_width (c ∷ d ∷ []) =
    if (leb 9 c && leb c 13) || (c =ℕ 32)
    then 1
    else if (c =ℕ 0xc2) && ((d =ℕ 0x85) || (d =ℕ 0xa0))
    then 2
    else 0
space_width (c ∷ []) = if (leb 9 c && leb c 13) || (c =ℕ 32) then 1 else 0
space_width [] = 0

-- The same at the end of a text, whose last byte comes first.
space_width_back : Text → ℕ
unfolding space_width
space_width_back (e ∷ d ∷ c ∷ s) =
    let one = space_width (e ∷ []) in
    let two = space_width (d ∷ e ∷ []) in
    if one =ℕ 1
    then 1
    else if two =ℕ 2
    then 2
    else if space_width (c ∷ d ∷ e ∷ []) =ℕ 3
    then 3
    else 0
space_width_back (e ∷ d ∷ []) =
    if space_width (e ∷ []) =ℕ 1 then 1 else if space_width (d ∷ e ∷ []) =ℕ 2 then 2 else 0
space_width_back s = space_width s

-- Drops white space for as long as `width` finds some; `skip` bytes belong to the one found last.
trim_by : (Text → ℕ) → ℕ → Text → Text
trim_by width skip [] = []
trim_by width (suc skip) (c ∷ s) = trim_by width skip s
trim_by width zero (c ∷ s) = elim (width (c ∷ s)) [ zero ↦ c ∷ s | suc k ↦ trim_by width k s ]

unfoldable pub trim_space : Text → Text
unfolding trim_by space_width space_width_back
trim_space s = reverse (trim_by space_width_back 0 (reverse (trim_by space_width 0 s)))

unfoldable pub lower_byte : ℕ → ℕ
lower_byte c = if leb b'A' c && leb c b'Z' then c + 32 else c

unfoldable pub mem : Text → List Text → Bool
mem s [] = false
mem s (t ∷ ts) = (s == t) || mem s ts

-- The words of a text between white space; `word` is the reverse of the word that is being read.
fields_from : ℕ → Text → Text → List Text
unfolding space_width
fields_from skip word [] = if length word =ℕ 0 then [] else reverse word ∷ []
fields_from (suc skip) word (c ∷ s) = fields_from skip word s
fields_from zero word (c ∷ s) =
    let w = space_width (c ∷ s) in
    let rest = fields_from (w - 1) (if w =ℕ 0 then c ∷ word else []) s in
    if (w =ℕ 0) || (length word =ℕ 0) then rest else reverse word ∷ rest

unfoldable pub fields : Text → List Text
unfolding fields_from
fields s = fields_from 0 [] s

unfoldable pub ascii_lower : Text → Text
unfolding lower_byte
ascii_lower s = map lower_byte s

-- The order of strings in Go.
unfoldable pub text_lt : Text → Text → Bool
text_lt s [] = false
text_lt [] (d ∷ t) = true
text_lt (c ∷ s) (d ∷ t) = if c =ℕ d then text_lt s t else ltb c d
