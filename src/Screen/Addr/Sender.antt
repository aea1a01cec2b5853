-- ===== src/Screen/Addr/Sender.antt =====
-- Who the sender is does not depend on the order of the fields.
use dsforms.Common.{
  ℕ, suc, ◌+◌, if◌then◌else◌, Bool-cases, length, keep, count, length-keep, Text, bytes, ◌==◌,
  ascii_lower, ◌≡◌, refl, ap, ◌∙◌, inl, inr, Bool, true, false, List, [], ◌∷◌, arith,
}
use mathlib.Core.List.{Permᴰ}
use mathlib.Core.List.Permᴰ
use native.Mathlib.Nat.{zero-add}
use dsforms.Screen.Addr.{
  sender_ambiguous, sender_one, sender_none, sender_address, resolve, SenderState, claimants,
}

-- The field says who sent the submission.
abbrev pub claims : Text × Text → Bool
claims (k, v) = ascii_lower k == bytes "email"

last_value : Text → List (Text × Text) → Text
last_value d [] = d
last_value d (f ∷ fs) = last_value (if claims f then f.1 else d) fs

claimants-count :
    (fs : List (Text × Text)) (d : Text) (n : ℕ)
    → claimants fs (d, n) ≡ (last_value d fs, n + count claims fs)
unfolding claimants last_value
claimants-count [] d n = ground arith
claimants-count ((k, v) ∷ fs) d n = elim (Bool-cases (ascii_lower k == bytes "email")) [
  | inl e ↦ rw e (ground (arith, claimants-count fs v (n + 1)))
  | inr e ↦ rw e (ground (arith, claimants-count fs d n))
]

-- Who the sender is, from the fields that claim it.
abbrev pub choose : List (Text × Text) → Text × SenderState
choose [] = ([], sender_none)
choose (f ∷ []) = (f.1, sender_one)
choose (f ∷ g ∷ fs) = ([], sender_ambiguous)

last_value-none : (d : Text) (fs : List (Text × Text)) → keep claims fs ≡ [] → last_value d fs ≡ d
unfolding last_value
last_value-none d [] h = refl
last_value-none d (f ∷ fs) h = ground (arith, last_value-none d fs)

last_value-one :
    (d : Text) (fs : List (Text × Text)) (f : Text × Text)
    → keep claims fs ≡ f ∷ []
    → last_value d fs ≡ f.1
unfolding last_value
last_value-one d [] f h = ground arith
last_value-one d (g ∷ fs) f h = ground (arith, last_value-one d fs f, last_value-none g.1 fs)

resolve-choose :
    (fs kept : List (Text × Text))
    → keep claims fs ≡ kept
    → resolve (last_value [] fs, count claims fs) ≡ choose kept
unfolding resolve
resolve-choose fs [] h = rw (← length-keep claims fs, h) refl
resolve-choose fs (f ∷ []) h = rw (← length-keep claims fs, h) (rw (last_value-one [] fs f h))
resolve-choose fs (f ∷ g ∷ rest) h = rw (← length-keep claims fs, h) refl

sender_address-choose : (fs : List (Text × Text)) → sender_address fs ≡ choose (keep claims fs)
unfolding sender_address
sender_address-choose fs =
    rw (claimants-count fs [] 0, zero-add (count claims fs))
      (resolve-choose fs (keep claims fs) refl)

Permᴰ-length : {fs gs : List (Text × Text)} → Permᴰ fs gs → length fs ≡ length gs
Permᴰ-length Permᴰ.nil = refl
Permᴰ-length (Permᴰ.cons e p) = ap suc (Permᴰ-length p)
Permᴰ-length (Permᴰ.swap e f) = refl
Permᴰ-length (Permᴰ.trans p q) = Permᴰ-length p ∙ Permᴰ-length q

choose-cons :
    (f g : Text × Text) (fs gs : List (Text × Text))
    → f ≡ g
    → length fs ≡ length gs
    → choose (f ∷ fs) ≡ choose (g ∷ gs)
choose-cons f g [] [] e n = cc
choose-cons f g [] (x ∷ gs) e n = absurd (omega arith)
choose-cons f g (x ∷ fs) [] e n = absurd (omega arith)
choose-cons f g (x ∷ fs) (y ∷ gs) e n = refl

choose-Permᴰ : {fs gs : List (Text × Text)} → Permᴰ fs gs → choose fs ≡ choose gs
choose-Permᴰ Permᴰ.nil = refl
choose-Permᴰ (Permᴰ.cons {a} {b} {l₁} {l₂} e p) = choose-cons a b l₁ l₂ e (Permᴰ-length p)
choose-Permᴰ (Permᴰ.swap e f) = refl
choose-Permᴰ (Permᴰ.trans p q) = choose-Permᴰ p ∙ choose-Permᴰ q

keep-swap :
    (f g : Text × Text) (c d : Bool) (fs : List (Text × Text))
    → Permᴰ
        (let rest : List (Text × Text) = (if c then f ∷ fs else fs) in if d then g ∷ rest else rest)
        (let rest : List (Text × Text) = (if d then g ∷ fs else fs) in if c then f ∷ rest else rest)
keep-swap f g true true fs = Permᴰ.swap refl refl
keep-swap f g true false fs = Permᴰ.refl _
keep-swap f g false true fs = Permᴰ.refl _
keep-swap f g false false fs = Permᴰ.refl fs

keep-Permᴰ : {fs gs : List (Text × Text)} → Permᴰ fs gs → Permᴰ (keep claims fs) (keep claims gs)
keep-Permᴰ Permᴰ.nil = Permᴰ.nil
keep-Permᴰ (Permᴰ.cons {a} {b} {l₁} {l₂} e p) = rw e (elim (Bool-cases (claims b)) [
  | inl c ↦ rw c (Permᴰ.cons refl (keep-Permᴰ p))
  | inr c ↦ rw c (keep-Permᴰ p)
])
keep-Permᴰ (Permᴰ.swap {a} {b} {a'} {b'} {l} e f) =
    rw (e, f) (keep-swap a' b' (claims a') (claims b') (keep claims l))
keep-Permᴰ (Permᴰ.trans p q) = Permᴰ.trans (keep-Permᴰ p) (keep-Permᴰ q)

-- Whatever the order in which the fields are walked, the sender and its state are the same; and the
-- address that is returned is empty unless exactly one field is named "email", in any case, when it is
-- that field's value.
pub sender_address-Permᴰ :
    (fs gs : List (Text × Text))
    → Permᴰ fs gs
    → (sender_address fs ≡ sender_address gs) × (sender_address fs ≡ choose (keep claims fs))
sender_address-Permᴰ fs gs p = (
  cc (sender_address-choose fs, sender_address-choose gs, choose-Permᴰ (keep-Permᴰ p)),
  sender_address-choose fs,
)
