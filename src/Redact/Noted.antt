-- ===== src/Redact/Noted.antt =====
-- internal/redact/redact.go: what `stripInvisible` reports of a text that it does not leave as it is.
use dsforms.Common.{
  ℕ, zero, suc, ◌+◌, ◌-◌, ◌≤◌, ◌<◌, ◌=ℕ◌, Bool-cases, length, length-append, take, Text, ◌≡◌, refl,
  inl, inr, true, false, Option, none, some, List, [], ◌∷◌, ◌++◌, arith,
}
use dsforms.Redact.Utf8.{decode, decode-fits}
use dsforms.Redact.Invisible.{
  clean_by, invisible, Scan, flush, removed_hits, bad_hits, kept_char, next_line, scan_char,
  scan_by, scan, clean_from, strip_invisible, started,
}
use dsforms.Redact.Visible.{out-scan}

-- Something was removed so far.
abbrev IsNoted : Scan → Type 0
IsNoted s = 0 < length s.hits + length s.removed + s.bad

length-removed_hits :
    (field : Text) (line : ℕ) (rs : List ℕ)
    → 0 < length rs
    → 0 < length (removed_hits field line rs)
unfolding removed_hits
length-removed_hits field line [] h = ground arith
length-removed_hits field line (r ∷ rs) h = omega arith

length-bad_hits : (field : Text) (line bad : ℕ) → 0 < bad → 0 < length (bad_hits field line bad)
unfolding bad_hits
length-bad_hits field line zero h = ground arith
length-bad_hits field line (suc bad) h = omega arith

hits-flush : (field : Text) (s : Scan) → IsNoted s → 0 < length (flush field s).hits
unfolding flush
hits-flush field s h = ground (
  arith,
  length-append s.hits (removed_hits field s.line s.removed ++ bad_hits field s.line s.bad),
  length-append (removed_hits field s.line s.removed) (bad_hits field s.line s.bad),
  length-removed_hits field s.line s.removed,
  length-bad_hits field s.line s.bad,
)

kept_char-IsNoted :
    (field : Text) (s : Scan) (r : ℕ) (written : Text)
    → IsNoted s
    → IsNoted (kept_char field s r written)
unfolding kept_char next_line flush
kept_char-IsNoted field s r written h = elim (Bool-cases (r =ℕ b'\n')) [
  | inl e ↦ rw e (omega (arith, hits-flush field s h))
  | inr e ↦ rw e h
]

push-IsNoted : (s : Scan) (r : ℕ) → IsNoted (record s { removed = s.removed ++ r ∷ [] })
push-IsNoted s r = omega (arith, length-append s.removed (r ∷ []))

scan_by-IsNoted :
    (field : Text) (s : Scan) (text : Text) (o : Option (ℕ × ℕ))
    → IsNoted s
    → IsNoted (scan_by field s text o).0
unfolding scan_by
scan_by-IsNoted field s text none h = omega (arith, h)
scan_by-IsNoted field s text (some (r, n)) h = elim (Bool-cases (r =ℕ 0x1B)) [
  | inl esc ↦ rw esc (push-IsNoted s r)
  | inr esc ↦ elim (Bool-cases (invisible r)) [
    | inl i ↦ rw (esc, i) (push-IsNoted s r)
    | inr i ↦ rw (esc, i) (kept_char-IsNoted field s r (take n text) h)
  ]
]

scan-IsNoted :
    (field : Text) (skip : ℕ) (s : Scan) (text : Text)
    → IsNoted s
    → IsNoted (scan field skip s text)
unfolding scan scan_char
scan-IsNoted field skip s [] h = h
scan-IsNoted field (suc skip) s (c ∷ text) h = scan-IsNoted field skip s text h
scan-IsNoted field zero s (c ∷ text) h =
    scan-IsNoted field _ _ text (scan_by-IsNoted field s (c ∷ text) _ h)

unclean-scan_by :
    (field : Text) (s : Scan) (c : ℕ) (text : Text) (o : Option (ℕ × ℕ))
    → ((skip : ℕ) (s : Scan)
        → skip ≤ length text
        → clean_from skip text ≡ false
        → IsNoted (scan field skip s text))
    → decode (c ∷ text) ≡ o
    → clean_by (λ skip. clean_from skip text) o ≡ false
    → IsNoted
        (scan field ((scan_by field s (c ∷ text) o).1 - 1) (scan_by field s (c ∷ text) o).0 text)
unfolding scan_by clean_by
unclean-scan_by field s c text none ih e h = scan-IsNoted field _ _ text (omega arith)
unclean-scan_by field s c text (some (r, n)) ih e h = elim (Bool-cases (r =ℕ 0x1B)) [
  | inl esc ↦ rw esc (scan-IsNoted field _ _ text (push-IsNoted s r))
  | inr esc ↦ elim (Bool-cases (invisible r)) [
    | inl i ↦ rw (esc, i) (scan-IsNoted field _ _ text (push-IsNoted s r))
    | inr i ↦
        let (m, k, _, fits) = decode-fits c text r n e in
        rw (esc, i) (ih (n - 1) _ (omega (arith, k, fits)) (ground (arith, h, i)))
  ]
]

-- A text that is not clean loses something.
unclean-scan :
    (field : Text) (skip : ℕ) (s : Scan) (text : Text)
    → skip ≤ length text
    → clean_from skip text ≡ false
    → IsNoted (scan field skip s text)
unfolding scan clean_from scan_char
unclean-scan field zero s [] fits h = ground arith
unclean-scan field (suc skip) s [] fits h = ground arith
unclean-scan field (suc skip) s (c ∷ text) fits h =
    unclean-scan field skip s text (omega (arith, fits)) h
unclean-scan field zero s (c ∷ text) fits h =
    unclean-scan_by field s c text _ (λ skip s. unclean-scan field skip s text) refl h

pub strip-clean :
    (field text : Text) → clean_from 0 text ≡ true → strip_invisible field text ≡ (text, [])
unfolding strip_invisible
strip-clean field text h = rw h refl

pub strip-unclean :
    (field text : Text) → clean_from 0 text ≡ false → 0 < length (strip_invisible field text).1
unfolding strip_invisible
strip-unclean field text h =
    rw h (hits-flush field _ (unclean-scan field 0 started text (omega arith) h))

-- What is left is valid UTF-8 with nothing invisible in it.
pub clean-strip : (field text : Text) → clean_from 0 (strip_invisible field text).0 ≡ true
unfolding strip_invisible
clean-strip field text = elim (Bool-cases (clean_from 0 text)) [
  | inl h ↦ rw h h
  | inr h ↦ rw h (unfold flush in (out-scan field 0 started text (unfold clean_from in refl)))
]
