-- ===== src/Common/Sorted.antt =====
-- A map of texts read in the order of its keys: the keys that the program collects from a map and
-- sorts, each with its value.
use mathlib.Core.List.{List, [], ◌∷◌}
use dsforms.Common.Tests.{if◌then◌else◌}
use dsforms.Common.Strings.{Text, text_lt}

unfoldable pub insert_field : Text × Text → List (Text × Text) → List (Text × Text)
insert_field f [] = f ∷ []
insert_field f (g ∷ fs) =
    let rest = insert_field f fs in if text_lt g.0 f.0 then g ∷ rest else f ∷ g ∷ fs

unfoldable pub sort_fields : List (Text × Text) → List (Text × Text)
unfolding insert_field text_lt
sort_fields [] = []
sort_fields (f ∷ fs) = insert_field f (sort_fields fs)
