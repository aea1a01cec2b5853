-- ===== src/Common/Assoc.antt =====
-- Go maps with string keys, as association lists: `put` writes in place or at the end, `remove`
-- deletes. The program never relies on the order of a map.
use mathlib.Core.Path.{◌≡◌, refl}
use mathlib.Core.Bool.{Bool, false, ◌||◌}
use mathlib.Core.Option.{Option, none, some}
use mathlib.Core.List.{List, [], ◌∷◌}
use native.Mathlib.Omega.{arith}
use dsforms.Common.Tests.{if◌then◌else◌}
use dsforms.Common.Strings.{Text, ◌==◌, eq_iff}

abbrev pub Assoc {ℓ} : Type ℓ → Type ℓ
Assoc V = List (Text × V)

module _ {ℓ} {V : Type ℓ} where
  unfoldable pub lookup : Text → Assoc V → Option V
  lookup k [] = none
  lookup k ((j, v) ∷ m) = if j == k then some v else lookup k m

  unfoldable pub put : Text → V → Assoc V → Assoc V
  put k v [] = (k, v) ∷ []
  put k v ((j, w) ∷ m) = let rest = put k v m in if j == k then (k, v) ∷ m else (j, w) ∷ rest

  unfoldable pub remove : Text → Assoc V → Assoc V
  remove k [] = []
  remove k ((j, w) ∷ m) = let rest = remove k m in if j == k then rest else (j, w) ∷ rest

  -- `for k, v := range m { if drop(k, v) { delete(m, k) } }`
  unfoldable pub sweep : (Text → V → Bool) → Assoc V → Assoc V
  sweep drop [] = []
  sweep drop ((j, w) ∷ m) = let rest = sweep drop m in if drop j w then rest else (j, w) ∷ rest

  -- No key twice.
  unfoldable pub has_key : Text → Assoc V → Bool
  has_key k [] = false
  has_key k ((j, v) ∷ m) = (j == k) || has_key k m

  abbrev pub IsMap : Assoc V → Type 0
  IsMap [] = Unit
  IsMap ((j, v) ∷ m) = (has_key j m ≡ false) × IsMap m

  pub lookup-put :
      (k j : Text) (v : V) (m : Assoc V)
      → lookup j (put k v m) ≡ (if k == j then some v else lookup j m)
  unfolding lookup put
  lookup-put k j v [] = refl
  lookup-put k j v ((i, w) ∷ m) =
      ground (arith, lookup-put k j v m, eq_iff i k, eq_iff i j, eq_iff k j)

  pub lookup-remove :
      (k j : Text) (m : Assoc V) → lookup j (remove k m) ≡ (if k == j then none else lookup j m)
  unfolding lookup remove
  lookup-remove k j [] = ground arith
  lookup-remove k j ((i, w) ∷ m) =
      ground (arith, lookup-remove k j m, eq_iff i k, eq_iff i j, eq_iff k j)

  lookup-absent : (k : Text) (m : Assoc V) → has_key k m ≡ false → lookup k m ≡ none
  unfolding lookup has_key
  lookup-absent k [] h = refl
  lookup-absent k ((j, v) ∷ m) h = ground (arith, lookup-absent k m)

  has_key-sweep :
      (k : Text) (drop : Text → V → Bool) (m : Assoc V)
      → has_key k m ≡ false
      → has_key k (sweep drop m) ≡ false
  unfolding sweep has_key
  has_key-sweep k drop [] h = refl
  has_key-sweep k drop ((j, v) ∷ m) h = ground (arith, has_key-sweep k drop m)

  abbrev pub kept : (V → Bool) → Option V → Option V
  kept stale none = none
  kept stale (some v) = if stale v then none else some v

  pub lookup-sweep :
      (k : Text) (drop : Text → V → Bool) (m : Assoc V)
      → IsMap m
      → lookup k (sweep drop m) ≡ kept (drop k) (lookup k m)
  unfolding lookup sweep
  lookup-sweep k drop [] h = refl
  lookup-sweep k drop ((j, v) ∷ m) h =
      ground
        (arith, lookup-sweep k drop m h.1, eq_iff j k, lookup-absent j m h.0, lookup-absent k m)

  has_key-put :
      (k j : Text) (v : V) (m : Assoc V) → has_key j (put k v m) ≡ ((k == j) || has_key j m)
  unfolding has_key put
  has_key-put k j v [] = refl
  has_key-put k j v ((i, w) ∷ m) =
      ground (arith, has_key-put k j v m, eq_iff i k, eq_iff i j, eq_iff k j)

  pub put-IsMap : (k : Text) (v : V) (m : Assoc V) → IsMap m → IsMap (put k v m)
  unfolding put has_key
  put-IsMap k v [] h = (refl, tt)
  put-IsMap k v ((i, w) ∷ m) h =
      ground (arith, put-IsMap k v m h.1, has_key-put k i v m, eq_iff i k, eq_iff k i)

  has_key-remove : (k j : Text) (m : Assoc V) → has_key j m ≡ false → has_key j (remove k m) ≡ false
  unfolding has_key remove
  has_key-remove k j [] h = refl
  has_key-remove k j ((i, w) ∷ m) h = ground (arith, has_key-remove k j m)

  pub remove-IsMap : (k : Text) (m : Assoc V) → IsMap m → IsMap (remove k m)
  unfolding remove
  remove-IsMap k [] h = tt
  remove-IsMap k ((i, w) ∷ m) h = ground (arith, remove-IsMap k m h.1, has_key-remove k i m h.0)

  pub sweep-IsMap : (drop : Text → V → Bool) (m : Assoc V) → IsMap m → IsMap (sweep drop m)
  unfolding sweep
  sweep-IsMap drop [] h = tt
  sweep-IsMap drop ((i, w) ∷ m) h =
      ground (arith, sweep-IsMap drop m h.1, has_key-sweep i drop m h.0)
