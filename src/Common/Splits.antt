-- ===== src/Common/Splits.antt =====
-- Texts split at a byte and joined again.
use Prim.Native.Nat.{ℕ, zero, suc, ◌<◌}
use mathlib.Core.Path.{◌≡◌, refl, sym, ap, ◌∙◌}
use mathlib.Core.Logic.{inl, inr}
use mathlib.Core.Bool.{false}
use mathlib.Core.List.{List, [], ◌∷◌, ◌++◌, append_assoc}
use native.Mathlib.Omega.{arith}
use dsforms.Common.Tests.{◌=ℕ◌, Bool-cases}
use dsforms.Common.Lists.{All, count, length, take}
use dsforms.Common.Strings.{Text, split, join, push_byte}

abbrev pub NoByte : ℕ → Text → Type 0
NoByte sep s = All (λ c. (c =ℕ sep) ≡ false) s

split-NoByte : (sep : ℕ) (s : Text) → NoByte sep s → split sep s ≡ s ∷ []
unfolding split
split-NoByte sep [] h = refl
split-NoByte sep (c ∷ s) h = ground (arith, split-NoByte sep s)

split-append : (sep : ℕ) (s t : Text) → NoByte sep s → split sep (s ++ sep ∷ t) ≡ s ∷ split sep t
unfolding split
split-append sep [] t h = ground arith
split-append sep (c ∷ s) t h = ground (arith, split-append sep s t)

pub split-join :
    (sep : ℕ) (w : Text) (ws : List Text)
    → All (NoByte sep) (w ∷ ws)
    → split sep (join (sep ∷ []) (w ∷ ws)) ≡ w ∷ ws
unfolding join
split-join sep w [] h = split-NoByte sep w h.0
split-join sep w (v ∷ ws) h =
    rw (split-append sep w (join (sep ∷ []) (v ∷ ws)) h.0, split-join sep v ws h.1)

-- The pieces of a split have no separator, there is at least one, and joined they are the text again.
push_byte-NoByte :
    (sep c : ℕ) (ws : List Text)
    → (c =ℕ sep) ≡ false
    → All (NoByte sep) ws
    → All (NoByte sep) (push_byte c ws)
push_byte-NoByte sep c [] e h = ((e, tt), tt)
push_byte-NoByte sep c (w ∷ ws) e h = ((e, h.0), h.1)

pub pieces-NoByte : (sep : ℕ) (s : Text) → All (NoByte sep) (split sep s)
unfolding split
pieces-NoByte sep [] = (tt, tt)
pieces-NoByte sep (c ∷ s) = elim (Bool-cases (c =ℕ sep)) [
  | inl e ↦ rw e (tt, pieces-NoByte sep s)
  | inr e ↦ rw e (push_byte-NoByte sep c (split sep s) e (pieces-NoByte sep s))
]

length-push_byte : (c : ℕ) (ws : List Text) → 0 < length (push_byte c ws)
length-push_byte c [] = omega arith
length-push_byte c (w ∷ ws) = omega arith

pub length-split : (sep : ℕ) (s : Text) → 0 < length (split sep s)
unfolding split
length-split sep [] = omega arith
length-split sep (c ∷ s) = ground (arith, length-push_byte c (split sep s))

push_byte-same : (c : ℕ) (ws : List Text) → 0 < length ws → length (push_byte c ws) ≡ length ws
push_byte-same c [] h = ground arith
push_byte-same c (w ∷ ws) h = refl

join-push_byte :
    (sep c : ℕ) (ws : List Text)
    → 0 < length ws
    → join (sep ∷ []) (push_byte c ws) ≡ c ∷ join (sep ∷ []) ws
unfolding join
join-push_byte sep c [] h = ground arith
join-push_byte sep c (w ∷ []) h = refl
join-push_byte sep c (w ∷ v ∷ ws) h = refl

join-[]-cons :
    (sep : ℕ) (ws : List Text)
    → 0 < length ws
    → join (sep ∷ []) ([] ∷ ws) ≡ sep ∷ join (sep ∷ []) ws
unfolding join
join-[]-cons sep [] h = ground arith
join-[]-cons sep (w ∷ ws) h = refl

pub join-split : (sep : ℕ) (s : Text) → join (sep ∷ []) (split sep s) ≡ s
unfolding split
join-split sep [] = unfold join in refl
join-split sep (c ∷ s) = elim (Bool-cases (c =ℕ sep)) [
  | inl e ↦ ground (arith, join-[]-cons sep (split sep s) (length-split sep s), join-split sep s)
  | inr e ↦
      ground (arith, join-push_byte sep c (split sep s) (length-split sep s), join-split sep s)
]

join-before :
    (sep i : ℕ) (ws : List Text)
    → suc i < length ws
    → (rest : Text) × (join (sep ∷ []) ws ≡ join (sep ∷ []) (take (suc i) ws) ++ sep ∷ rest)
unfolding join
join-before sep i [] h = ground arith
join-before sep i (w ∷ []) h = ground arith
join-before sep zero (w ∷ v ∷ vs) h = (join (sep ∷ []) (v ∷ vs), refl)
join-before sep (suc i) (w ∷ v ∷ vs) h =
    let (rest, e) = join-before sep i (v ∷ vs) (omega (arith, h)) in
    (
      rest,
      ap (λ t. w ++ (sep ∷ t)) e
          ∙ sym (append_assoc w (sep ∷ join (sep ∷ []) (take (suc i) (v ∷ vs))) (sep ∷ rest)),
    )

-- What is joined from the first pieces of a text ends right before a separator of that text.
pub join-take :
    (sep i : ℕ) (s : Text)
    → suc i < length (split sep s)
    → (rest : Text) × (s ≡ join (sep ∷ []) (take (suc i) (split sep s)) ++ sep ∷ rest)
join-take sep i s h =
    let (rest, e) = join-before sep i (split sep s) h in (rest, sym (join-split sep s) ∙ e)

-- One piece more than there are separators.
pub pieces-count : (sep : ℕ) (s : Text) → length (split sep s) ≡ suc (count (λ c. c =ℕ sep) s)
unfolding split
pieces-count sep [] = refl
pieces-count sep (c ∷ s) =
    ground (arith, pieces-count sep s, push_byte-same c (split sep s) (length-split sep s))
