-- ===== src/Redact/Cut.antt =====
-- internal/redact/redact.go: what the cut at the first forged turn leaves.
use dsforms.Common.{
  ℕ, zero, suc, ◌+◌, ◌-◌, ◌≤◌, ◌<◌, ◌=ℕ◌, Bool-cases, length, take, drop, all, All, All-take, Text,
  split, join, ◌≡◌, refl, ap, ◌∙◌, subst, inl, inr, Bool, true, false, none, some, List, [], ◌∷◌,
  arith,
}
use dsforms.Common.Splits.{pieces-NoByte, split-join, join-take, length-split, NoByte}
use dsforms.Redact.Invisible.{clean_from}
use dsforms.Redact.Visible.{clean-line}
use mathlib.Core.List.{append-nil}
use dsforms.Redact.Markers.{
  cut_at, forged_hit, Marker, line_markers, marked_from, strip_forged_turn,
}

abbrev pub is_unmarked : Text → Bool
is_unmarked line = length (line_markers line) =ℕ 0

-- No line of the text has a marker.
abbrev pub is_unforged : Text → Bool
is_unforged text = all is_unmarked (split b'\n' text)

marked-none :
    (i : ℕ) (lines : List Text) → all is_unmarked lines ≡ true → (marked_from i lines).0 ≡ none
unfolding marked_from
marked-none i [] h = refl
marked-none i (line ∷ lines) h = ground (arith, marked-none (i + 1) lines)

-- The first marked line has unmarked ones before it.
marked-some :
    (i : ℕ) (lines : List Text)
    → all is_unmarked lines ≡ false
    → (k : ℕ) × ((marked_from i lines).0 ≡ some (i + k))
      × (k < length lines)
      × (all is_unmarked (take k lines) ≡ true)
unfolding marked_from
marked-some i [] h = ground arith
marked-some i (line ∷ lines) h = elim (Bool-cases (is_unmarked line)) [
  | inl e ↦
      let (k, found, fits, before) = marked-some (i + 1) lines (ground (arith, e, h)) in
      (suc k, rw e (found ∙ ap some (omega arith)), omega (arith, fits), rw (e, before))
  | inr e ↦ (0, rw e (ap some (omega arith)), omega arith, refl)
]

pub strip-unforged :
    (field text : Text) → is_unforged text ≡ true → strip_forged_turn field text ≡ (text, none)
unfolding strip_forged_turn
strip-unforged field text h = rw (marked-none 0 (split b'\n' text) h)

-- What the cut keeps of the lines.
abbrev pub kept_lines : ℕ → Text → Text
kept_lines k text = join (b'\n' ∷ []) (take k (split b'\n' text))

split-take :
    (k : ℕ) (ws : List Text)
    → 0 < length ws
    → All (NoByte b'\n') ws
    → split b'\n' (join (b'\n' ∷ []) (take (suc k) ws)) ≡ take (suc k) ws
split-take k [] l h = ground arith
split-take k (w ∷ ws) l h =
    split-join b'\n' w (take k ws) (All-take (NoByte b'\n') (suc k) (w ∷ ws) h)

kept-unforged :
    (k : ℕ) (text : Text)
    → all is_unmarked (take k (split b'\n' text)) ≡ true
    → is_unforged (kept_lines k text) ≡ true
kept-unforged zero text h = unfold join split line_markers in refl
kept-unforged (suc k) text h =
    ap (all is_unmarked)
      (split-take k (split b'\n' text) (length-split b'\n' text) (pieces-NoByte b'\n' text))
    ∙ h

pub kept-clean :
    (k : ℕ) (text : Text)
    → k < length (split b'\n' text)
    → clean_from 0 text ≡ true
    → clean_from 0 (kept_lines k text) ≡ true
kept-clean zero text h c = unfold join clean_from in refl
kept-clean (suc k) text h c =
    let (rest, e) = join-take b'\n' k text h in
    clean-line 0 _ rest (subst (λ t. clean_from 0 t ≡ true) e c) tt

drop-all {ℓ} : {A : Type ℓ} (n : ℕ) (xs : List A) → length xs ≤ n → drop n xs ≡ []
drop-all zero [] h = refl
drop-all zero (x ∷ xs) h = ground arith
drop-all (suc n) [] h = refl
drop-all (suc n) (x ∷ xs) h = drop-all n xs (omega (arith, h))

cut_some :
    (field text : Text) (lines : List Text) (k : ℕ) (found : List Marker)
    → cut_at field text lines (some k) found
      ≡ (join (b'\n' ∷ []) (take k lines), some (forged_hit field k (length lines - 1) found))
unfolding cut_at
cut_some field text lines k found =
    rw (drop-all (length lines - 1 + 1) lines (omega arith), append-nil (take k lines))

-- A text with a marker is cut before its first one.
pub strip-forged :
    (field text : Text)
    → is_unforged text ≡ false
    → (k : ℕ) × ((found : List Marker) × (strip_forged_turn field text
          ≡ (kept_lines k text, some (forged_hit field k (length (split b'\n' text) - 1) found))))
      × (k < length (split b'\n' text))
      × (is_unforged (kept_lines k text) ≡ true)
unfolding strip_forged_turn
strip-forged field text h =
    let lines = split b'\n' text in
    let (k, found, fits, before) = marked-some 0 lines h in
    (
      k,
      (
        (marked_from 0 lines).1,
        ap (λ o. cut_at field text lines o (marked_from 0 lines).1) (found ∙ ap some (omega arith))
            ∙ cut_some field text lines k (marked_from 0 lines).1,
      ),
      fits,
      kept-unforged k text before,
    )
