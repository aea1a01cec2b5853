-- ===== src/Store/FormScope/Laws.antt =====
-- What a form scope reaches, and that its SQL reaches the same rows.
use dsforms.Common.{
  if◌then◌else◌, All, Text, bytes, eq_iff, ◌==◌, split, join, trim_space, mem, ◌≡◌, refl, ◌≢◌, Bool,
  true, false, ◌&&◌, ◌||◌, not, List, [], ◌∷◌, arith,
}
use dsforms.Common.Splits.{NoByte, split-join}
use dsforms.Store.FormScope.{all_forms, only_forms, trimmed, parse_form_scope, allows}

-- Some entry of `xs` is `id` once trimmed, and is not blank.
pub names : Text → List Text → Bool
names id [] = false
names id (x ∷ xs) = (not (trim_space x == []) && (id == trim_space x)) || names id xs

mem-trimmed : (id : Text) (xs : List Text) → mem id (trimmed xs) ≡ names id xs
unfolding mem trimmed names
mem-trimmed id [] = refl
mem-trimmed id (x ∷ xs) = ground (arith, mem-trimmed id xs)

-- A stored column that is blank reaches every form; any other reaches exactly the forms that one of
-- its comma-separated entries names, blank entries naming none. A list of forms reaches exactly the
-- forms that its entries name, so the empty list reaches none.
allows-parse_form_scope :
    (stored id : Text) (ids : List Text)
    → (allows (parse_form_scope stored) id
        ≡ (if trim_space stored == [] then true else names id (split b',' stored)))
      × (allows (only_forms ids) id ≡ names id ids)
unfolding allows parse_form_scope only_forms all_forms
allows-parse_form_scope stored id ids =
    (ground (arith, mem-trimmed id (split b',' stored)), mem-trimmed id ids)

-- An identifier as the store makes them: no comma, no white space around it, not empty.
abbrev pub IsClean : Text → Type 0
IsClean s = NoByte b',' s × (trim_space s ≡ s) × (s ≢ [])

pub trimmed-clean : (ids : List Text) → All IsClean ids → trimmed ids ≡ ids
unfolding trimmed
trimmed-clean [] h = refl
trimmed-clean (x ∷ xs) h = ground (arith, trimmed-clean xs h.1, eq_iff x [], h.0.1, h.0.2)

pub clean-NoByte : (ids : List Text) → All IsClean ids → All (NoByte b',') ids
clean-NoByte [] h = tt
clean-NoByte (x ∷ xs) h = (h.0.0, clean-NoByte xs h.1)

-- Clean identifiers that are stored joined by commas, in a column that is not blank, come back as
-- they were, and the scope is limited to them.
pub parse_form_scope-join :
    (x : Text) (xs : List Text)
    → All IsClean (x ∷ xs)
    → trim_space (join (bytes ",") (x ∷ xs)) ≢ []
    → parse_form_scope (join (bytes ",") (x ∷ xs)) ≡ record { all = false; ids = x ∷ xs }
unfolding parse_form_scope only_forms
parse_form_scope-join x xs h shown = ground (
  arith,
  eq_iff (trim_space (join (bytes ",") (x ∷ xs))) [],
  split-join b',' x xs (clean-NoByte (x ∷ xs) h),
  trimmed-clean (x ∷ xs) h,
)
