-- ===== src/Redact/Lengths.antt =====
-- internal/redact/redact.go: no value grows.
use dsforms.Common.{
  ℕ, zero, suc, ◌+◌, ◌-◌, ◌≤◌, ◌<◌, ◌=ℕ◌, Bool-cases, length, length-append, take, drop,
  take-append-drop, Text, cut, split, join, ◌≡◌, refl, sym, ap, ◌∙◌, inl, inr, Option, none, some,
  [], ◌∷◌, arith,
}
use dsforms.Common.Splits.{join-take}
use dsforms.Redact.Utf8.{decode}
use dsforms.Redact.Invisible.{
  Scan, flush, invisible, escape_len, scan_char, scan_by, scan, clean_from, strip_invisible,
  started,
}
use dsforms.Redact.Lines.{drop-step, scan_by-IsRound, kept_char-shape}
use dsforms.Redact.Cut.{is_unforged, strip-unforged, strip-forged, kept_lines}
use dsforms.Redact.Markers.{strip_forged_turn}
use dsforms.Redact.{value}

length-parts : (n : ℕ) (s : Text) → length (take n s) + length (drop n s) ≡ length s
length-parts n s = sym (length-append (take n s) (drop n s)) ∙ ap length (take-append-drop n s)

-- No round writes more than it reads.
length-scan_by :
    (field : Text) (s : Scan) (text : Text) (o : Option (ℕ × ℕ))
    → length (scan_by field s text o).0.out + length (drop (scan_by field s text o).1 text)
      ≤ length s.out + length text
unfolding scan_by
length-scan_by field s text none = omega (arith, length-parts 1 text)
length-scan_by field s text (some (r, n)) = elim (Bool-cases (r =ℕ 0x1B)) [
  | inl esc ↦ rw esc (omega (arith, length-parts (escape_len text) text))
  | inr esc ↦ elim (Bool-cases (invisible r)) [
    | inl i ↦ rw (esc, i) (omega (arith, length-parts n text))
    | inr i ↦
        let (out, _) = kept_char-shape field s r (take n text) in
        rw (esc, i)
          (omega (arith, ap length out, length-append s.out (take n text), length-parts n text))
  ]
]

length-scan :
    (field : Text) (skip : ℕ) (s : Scan) (text : Text)
    → length (scan field skip s text).out ≤ length s.out + length (drop skip text)
unfolding scan scan_char
length-scan field zero s [] = omega arith
length-scan field (suc skip) s [] = omega arith
length-scan field (suc skip) s (c ∷ text) = length-scan field skip s text
length-scan field zero s (c ∷ text) =
    let round = scan_by-IsRound field s c text (decode (c ∷ text)) refl in
    let (next, moved) = scan_by field s (c ∷ text) (decode (c ∷ text)) in
    omega (
      arith,
      length-scan field (moved - 1) next text,
      length-scan_by field s (c ∷ text) (decode (c ∷ text)),
      ap length (drop-step moved c text round.moves),
    )

length-strip_invisible : (field text : Text) → length (strip_invisible field text).0 ≤ length text
unfolding strip_invisible flush
length-strip_invisible field text = elim (Bool-cases (clean_from 0 text)) [
  | inl e ↦ rw e (omega arith)
  | inr e ↦ rw e (omega (arith, length-scan field 0 started text))
]

length-kept_lines :
    (k : ℕ) (text : Text) → k < length (split b'\n' text) → length (kept_lines k text) ≤ length text
length-kept_lines zero text h = unfold join in (omega arith)
length-kept_lines (suc k) text h =
    let (rest, e) = join-take b'\n' k text h in
    omega (arith, ap length e, length-append (kept_lines (suc k) text) (b'\n' ∷ rest))

length-strip_forged_turn :
    (field text : Text) → length (strip_forged_turn field text).0 ≤ length text
length-strip_forged_turn field text = elim (Bool-cases (is_unforged text)) [
  | inl u ↦ rw (strip-unforged field text u) (omega arith)
  | inr u ↦
      let (k, (_, cut), fits, _) = strip-forged field text u in
      rw cut (length-kept_lines k text fits)
]

pub length-value : (field text : Text) → length (value field text).0 ≤ length text
unfolding value
length-value field text = ground (
  arith,
  length-strip_invisible field text,
  length-strip_forged_turn field (strip_invisible field text).0,
)
