-- ===== src/Redact/Lines.antt =====
-- internal/redact/redact.go: the removal of invisible text leaves every line in its place, so that the
-- lines of the report are lines of the value as it was submitted.
use dsforms.Common.{
  ℕ, zero, suc, ◌+◌, ◌-◌, ◌≤◌, ◌=ℕ◌, if◌then◌else◌, =ℕ_iff, Bool-cases, Bool-ext, take, drop,
  take-append-drop, count, count-append, Text, ◌≡◌, refl, sym, ap, ◌∙◌, inl, inr, true, false,
  Option, none, some, [], ◌∷◌, ◌++◌, arith,
}
use dsforms.Redact.Utf8.{decode, decode-ascii, decode-fits, AreTails}
use dsforms.Redact.Invisible.{
  invisible, scan_char, scan, scan_by, flush, next_line, kept_char, Scan, line_end, csi_end,
  osc_end, escape_by, escape_len,
}

abbrev pub newlines : Text → ℕ
newlines s = count (λ c. c =ℕ b'\n') s

-- An escape takes at least one byte, and none past the end of its line.
csi_end-le : (end i : ℕ) (s : Text) → 1 ≤ end → (1 ≤ csi_end end i s) × (csi_end end i s ≤ end)
unfolding csi_end
csi_end-le end i [] h = (h, omega arith)
csi_end-le end i (c ∷ s) h = ground (arith, csi_end-le end (i + 1) s h)

osc_end-le : (end i : ℕ) (s : Text) → 1 ≤ end → (1 ≤ osc_end end i s) × (osc_end end i s ≤ end)
unfolding osc_end
osc_end-le end i [] h = (h, omega arith)
osc_end-le end i (c ∷ s) h = ground (arith, osc_end-le end (i + 1) s h)

escape_by-le : (end : ℕ) (s : Text) → 2 ≤ end → (1 ≤ escape_by end s) × (escape_by end s ≤ end)
unfolding escape_by
escape_by-le end [] h = ground (arith, h)
escape_by-le end (c ∷ []) h = ground (arith, h)
escape_by-le end (c ∷ d ∷ s) h =
    ground (arith, csi_end-le end 2 s (omega (arith, h)), osc_end-le end 2 s (omega (arith, h)), h)

escape_len-le :
    (c : ℕ) (s : Text)
    → (c =ℕ b'\n') ≡ false
    → (1 ≤ escape_len (c ∷ s)) × (escape_len (c ∷ s) ≤ line_end (c ∷ s))
unfolding escape_len
escape_len-le c s h = rw h (ground (arith, escape_by-le (suc (line_end s)) (c ∷ s)))

newlines-line_end : (n : ℕ) (s : Text) → n ≤ line_end s → newlines (take n s) ≡ 0
unfolding line_end
newlines-line_end zero s h = refl
newlines-line_end (suc n) [] h = refl
newlines-line_end (suc n) (c ∷ s) h = ground (arith, newlines-line_end n s)

newlines-tails : (n : ℕ) (s : Text) → AreTails n s → newlines (take n s) ≡ 0
newlines-tails zero s h = refl
newlines-tails (suc n) [] h = refl
newlines-tails (suc n) (c ∷ s) h = ground (arith, newlines-tails n s h.1, h.0)

newlines-take : (n : ℕ) (s : Text) → newlines (take n s) + newlines (drop n s) ≡ newlines s
newlines-take n s =
    sym (count-append (λ c. c =ℕ b'\n') (take n s) (drop n s)) ∙ ap newlines (take-append-drop n s)

decode-newline : (s : Text) → decode (b'\n' ∷ s) ≡ some (b'\n', 1)
unfolding decode
decode-newline s = refl

-- A character is a newline exactly if its first byte is one.
is_newline :
    (c : ℕ) (s : Text) (r n : ℕ) → decode (c ∷ s) ≡ some (r, n) → (r =ℕ b'\n') ≡ (c =ℕ b'\n')
is_newline c s r n e =
    Bool-ext (r =ℕ b'\n') (c =ℕ b'\n') (λ h. ground (arith, decode-ascii c s r n e, h))
      (λ h.
        let same = sym e ∙ ap (λ c. decode (c ∷ s)) ((=ℕ_iff c b'\n').0 h) ∙ decode-newline s in
        ground (arith, same))

-- The bytes of a character are one newline or none.
newlines-char :
    (c : ℕ) (s : Text) (r n : ℕ)
    → decode (c ∷ s) ≡ some (r, n)
    → newlines (take n (c ∷ s)) ≡ (if r =ℕ b'\n' then 1 else 0)
newlines-char c s r n e =
    let (m, k, tails, _) = decode-fits c s r n e in
    ground
      (arith, newlines-tails m s tails, is_newline c s r n e, ap (λ n. newlines (take n (c ∷ s))) k)

-- What one round does to the lines: the newlines that it writes and those that are left to read are
-- the ones there were, and the line goes up with each.
pub record IsRound (s : Scan) (text : Text) (next : Scan) (moved : ℕ) : Type 0 where
  pub moves : 1 ≤ moved
  written : newlines next.out + newlines (drop moved text) ≡ newlines s.out + newlines text
  counted : next.line + newlines (drop moved text) ≡ s.line + newlines text

-- Removed bytes without a newline.
removed-IsRound :
    (s next : Scan) (text : Text) (moved : ℕ)
    → 1 ≤ moved
    → newlines (take moved text) ≡ 0
    → next.out ≡ s.out
    → next.line ≡ s.line
    → IsRound s text next moved
removed-IsRound s next text moved m none_there out line = record {
  moves = m;
  written = omega (arith, ap newlines out, newlines-take moved text, none_there);
  counted = omega (arith, line, newlines-take moved text, none_there);
}

pub kept_char-shape :
    (field : Text) (s : Scan) (r : ℕ) (written : Text)
    → ((kept_char field s r written).out ≡ s.out ++ written)
      × ((kept_char field s r written).line ≡ s.line + (if r =ℕ b'\n' then 1 else 0))
unfolding kept_char next_line flush
kept_char-shape field s r written = elim (Bool-cases (r =ℕ b'\n')) [
  | inl y ↦ rw y (refl, refl)
  | inr y ↦ rw y (refl, omega arith)
]

kept_char-IsRound :
    (field : Text) (s : Scan) (c : ℕ) (text : Text) (r n : ℕ)
    → decode (c ∷ text) ≡ some (r, n)
    → IsRound s (c ∷ text) (kept_char field s r (take n (c ∷ text))) n
kept_char-IsRound field s c text r n e =
    let (m, k, _, _) = decode-fits c text r n e in
    let bytes_of = newlines-char c text r n e in
    let parts = newlines-take n (c ∷ text) in
    let (out, line) = kept_char-shape field s r (take n (c ∷ text)) in
    record {
      moves = omega (arith, k);
      written =
          omega (
            arith,
            ap newlines out,
            count-append (λ c. c =ℕ b'\n') s.out (take n (c ∷ text)),
            parts,
          );
      counted = omega (arith, line, bytes_of, parts);
    }

newlines-bad : (c : ℕ) (s : Text) → decode (c ∷ s) ≡ none → newlines (take 1 (c ∷ s)) ≡ 0
newlines-bad c s e = elim (Bool-cases (c =ℕ b'\n')) [
  | inl y ↦
      let same = sym e ∙ ap (λ c. decode (c ∷ s)) ((=ℕ_iff c b'\n').0 y) ∙ decode-newline s in
      absurd (ground (arith, same))
  | inr y ↦ ground (arith, y)
]

newline_stays : invisible b'\n' ≡ false
newline_stays = unfold invisible in refl

not_newline : (r : ℕ) → invisible r ≡ true → (r =ℕ b'\n') ≡ false
not_newline r h = elim (Bool-cases (r =ℕ b'\n')) [
  | inl y ↦ absurd (ground (arith, sym h ∙ ap invisible ((=ℕ_iff r b'\n').0 y) ∙ newline_stays))
  | inr y ↦ y
]

pub drop-step : (n c : ℕ) (s : Text) → 1 ≤ n → drop n (c ∷ s) ≡ drop (n - 1) s
drop-step zero c s h = ground arith
drop-step (suc n) c s h = ap (λ k. drop k s) (omega arith)

pub scan_by-IsRound :
    (field : Text) (s : Scan) (c : ℕ) (text : Text) (o : Option (ℕ × ℕ))
    → decode (c ∷ text) ≡ o
    → IsRound s (c ∷ text) (scan_by field s (c ∷ text) o).0 (scan_by field s (c ∷ text) o).1
unfolding scan_by
scan_by-IsRound field s c text none e =
    removed-IsRound s _ (c ∷ text) 1 (omega arith) (newlines-bad c text e) refl refl
scan_by-IsRound field s c text (some (r, n)) e = elim (Bool-cases (r =ℕ 0x1B)) [
  | inl esc ↦
      let (m, l) = escape_len-le c text (ground (arith, is_newline c text r n e, esc)) in
      rw esc (
        removed-IsRound s _ (c ∷ text) (escape_len (c ∷ text)) m (newlines-line_end _ (c ∷ text) l)
          refl refl)
  | inr esc ↦ elim (Bool-cases (invisible r)) [
    | inl i ↦
        rw (esc, i)
          (removed-IsRound s _ (c ∷ text) n
            (let (m, k, _, _) = decode-fits c text r n e in omega (arith, k))
            (ground (arith, newlines-char c text r n e, not_newline r i)) refl refl)
    | inr i ↦ rw (esc, i) (kept_char-IsRound field s c text r n e)
  ]
]

-- The loop, from `skip` bytes further on.
pub scan_lines :
    (field : Text) (skip : ℕ) (s : Scan) (text : Text)
    → (newlines (scan field skip s text).out ≡ newlines s.out + newlines (drop skip text))
      × ((scan field skip s text).line ≡ s.line + newlines (drop skip text))
unfolding scan scan_char
scan_lines field zero s [] = (omega arith, omega arith)
scan_lines field (suc skip) s [] = (omega arith, omega arith)
scan_lines field (suc skip) s (c ∷ text) = scan_lines field skip s text
scan_lines field zero s (c ∷ text) =
    let round = scan_by-IsRound field s c text (decode (c ∷ text)) refl in
    let (next, moved) = scan_by field s (c ∷ text) (decode (c ∷ text)) in
    let rest = scan_lines field (moved - 1) next text in
    let next_byte = ap newlines (drop-step moved c text round.moves) in
    (
      omega (arith, rest.0, round.written, next_byte),
      omega (arith, rest.1, round.counted, next_byte),
    )
