-- ===== src/Redact/Served.antt =====
-- internal/redact/redact.go: what `Fields` serves of a whole submission, and that `Any` agrees with it.
use dsforms.Common.{
  ◌=ℕ◌, length, length-append, all, Text, ◌≡◌, refl, Bool, true, false, ◌&&◌, not, List, [], ◌∷◌,
  map, arith,
}
use dsforms.Common.Assoc.{Assoc}
use dsforms.Common.Sorted.{sort_fields, insert_field}
use dsforms.Redact.Settled.{is_plain, silent, value-Pass}
use dsforms.Redact.{value, fields, fields_of, removes_any, in_name}

-- Every name and every value is plain.
abbrev pub are_plain : Assoc Text → Bool
are_plain entries = all (λ e. is_plain e.0 && is_plain e.1) entries

all-insert_field :
    (f : Text × Text) (fs : Assoc Text) → are_plain (insert_field f fs) ≡ are_plain (f ∷ fs)
unfolding insert_field
all-insert_field f [] = refl
all-insert_field f (g ∷ fs) = ground (arith, all-insert_field f fs)

are_plain-sort_fields : (fs : Assoc Text) → are_plain (sort_fields fs) ≡ are_plain fs
unfolding sort_fields
are_plain-sort_fields [] = refl
are_plain-sort_fields (f ∷ fs) =
    ground (arith, all-insert_field f (sort_fields fs), are_plain-sort_fields fs)

removes_any-are_plain : (fs : Assoc Text) → removes_any fs ≡ not (are_plain fs)
unfolding removes_any
removes_any-are_plain [] = refl
removes_any-are_plain ((k, v) ∷ fs) =
    ground (arith, silent [] k, silent [] v, removes_any-are_plain fs)

length-map {ℓ κ} :
    {A : Type ℓ} {B : Type κ} (f : A → B) (xs : List A) → length (map f xs) ≡ length xs
length-map f [] = refl
length-map f (x ∷ xs) = omega (arith, length-map f xs)

fields_of-silent : (fs : Assoc Text) → (length (fields_of fs).1 =ℕ 0) ≡ are_plain fs
unfolding fields_of
fields_of-silent [] = refl
fields_of-silent ((k, v) ∷ fs) = ground (
  arith,
  silent [] k,
  silent k v,
  fields_of-silent fs,
  length-append (value k v).1 (fields_of fs).1,
  length-append (map in_name (value [] k).1) (fields_of fs).1,
  length-map in_name (value [] k).1,
)

-- `Any` tells of a submission whether `Fields` reports anything.
pub removes_any-fields :
    (entries : Assoc Text) → removes_any entries ≡ not (length (fields entries).1 =ℕ 0)
unfolding fields
removes_any-fields entries = ground (
  arith,
  removes_any-are_plain entries,
  fields_of-silent (sort_fields entries),
  are_plain-sort_fields entries,
)

fields_of-plain : (fs : Assoc Text) → are_plain (fields_of fs).0 ≡ true
unfolding fields_of
fields_of-plain [] = refl
fields_of-plain ((k, v) ∷ fs) = ground (arith, silent [] k, fields_of-plain fs, (value-Pass k v).0)

-- What `Fields` serves has nothing left to remove, in a name or in a value.
pub removes_any-served : (entries : Assoc Text) → removes_any (fields entries).0 ≡ false
unfolding fields
removes_any-served entries = ground (
  arith,
  removes_any-are_plain (fields_of (sort_fields entries)).0,
  fields_of-plain (sort_fields entries),
)
