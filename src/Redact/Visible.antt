-- ===== src/Redact/Visible.antt =====
-- internal/redact/redact.go: what the removal of invisible text leaves.
use dsforms.Common.{
  ℕ, zero, suc, ◌-◌, ◌≤◌, ◌=ℕ◌, Bool-cases, and-eq-true, length, length-take, take, drop,
  take-append-drop, Text, ◌≡◌, refl, sym, ap, ◌∙◌, subst, inl, inr, true, false, not, Option, none,
  some, [], ◌∷◌, ◌++◌, arith,
}
use dsforms.Redact.Utf8.{decode, decode-fits, decode-append, decode-prefix, AreTails}
use dsforms.Redact.Invisible.{
  clean_by, invisible, Scan, flush, kept_char, next_line, scan_char, scan_by, scan, clean_from,
}

clean-skip : (k : ℕ) (a : Text) → length a ≡ k → clean_from k a ≡ true
unfolding clean_from
clean-skip zero [] h = refl
clean-skip zero (c ∷ a) h = ground arith
clean-skip (suc k) [] h = ground arith
clean-skip (suc k) (c ∷ a) h = clean-skip k a (omega (arith, h))

-- A text that is not empty and clean begins with a character that is not invisible.
record IsHead (c : ℕ) (a : Text) : Type 0 where
  rune : ℕ
  more : ℕ
  read : decode (c ∷ a) ≡ some (rune, suc more)
  shown : invisible rune ≡ false
  rest : clean_from more a ≡ true
  tails : AreTails more a

by-IsHead :
    (c : ℕ) (a : Text) (o : Option (ℕ × ℕ))
    → decode (c ∷ a) ≡ o
    → clean_by (λ skip. clean_from skip a) o ≡ true
    → IsHead c a
unfolding clean_by
by-IsHead c a none e h = ground arith
by-IsHead c a (some (r, n)) e h =
    let (m, k, tails, fits) = decode-fits c a r n e in
    let (shown, rest) = and-eq-true (not (invisible r)) (clean_from (n - 1) a) h in
    record {
      rune = r;
      more = m;
      read = e ∙ ap (λ n. some (r, n)) k;
      shown = ground (arith, shown);
      rest = subst (λ j. clean_from j a ≡ true) (omega (arith, k)) rest;
      tails = tails;
    }

clean-IsHead : (c : ℕ) (a : Text) → clean_from 0 (c ∷ a) ≡ true → IsHead c a
unfolding clean_from
clean-IsHead c a h = by-IsHead c a _ refl h

clean-cons :
    (c : ℕ) (a : Text) (r m : ℕ)
    → decode (c ∷ a) ≡ some (r, suc m)
    → invisible r ≡ false
    → clean_from m a ≡ true
    → clean_from 0 (c ∷ a) ≡ true
unfolding clean_from clean_by
clean-cons c a r m e v h =
    ap (clean_by (λ skip. clean_from skip a)) e
    ∙ rw v (subst (λ j. clean_from j a ≡ true) (omega arith) h)

clean-append :
    (k : ℕ) (a b : Text)
    → clean_from k a ≡ true
    → clean_from 0 b ≡ true
    → clean_from k (a ++ b) ≡ true
unfolding clean_from
clean-append zero [] b h g = g
clean-append (suc k) [] b h g = ground arith
clean-append (suc k) (c ∷ a) b h g = clean-append k a b h g
clean-append zero (c ∷ a) b h g =
    let p = clean-IsHead c a h in
    clean-cons c (a ++ b) p.rune p.more (decode-append c a b p.rune (suc p.more) p.read) p.shown
      (clean-append p.more a b p.rest g)

-- The bytes of one character that is not invisible.
clean-char :
    (c : ℕ) (a : Text) (r n : ℕ)
    → decode (c ∷ a) ≡ some (r, n)
    → invisible r ≡ false
    → clean_from 0 (take n (c ∷ a)) ≡ true
clean-char c a r n e v =
    let (m, k, tails, fits) = decode-fits c a r n e in
    subst (λ n. clean_from 0 (take n (c ∷ a)) ≡ true) (sym k)
      (clean-cons c (take m a) r m
        (decode-prefix c (take m a) (drop m a) r m
          (ap (λ t. decode (c ∷ t)) (take-append-drop m a) ∙ e ∙ ap (λ n. some (r, n)) k)
          (omega (arith, length-take m a fits)))
        v (clean-skip m (take m a) (length-take m a fits)))

-- A newline is not among the bytes after the first of a character.
tails-fit : (m : ℕ) (a b : Text) → AreTails m (a ++ b'\n' ∷ b) → m ≤ length a
tails-fit zero a b t = omega arith
tails-fit (suc m) [] b t = absurd (omega (arith, t.0))
tails-fit (suc m) (c ∷ a) b t = omega (arith, tails-fit m a b t.1)

-- The text before a newline of a clean text is clean.
pub clean-line :
    (k : ℕ) (a b : Text)
    → clean_from k (a ++ b'\n' ∷ b) ≡ true
    → AreTails k (a ++ b'\n' ∷ b)
    → clean_from k a ≡ true
unfolding clean_from
clean-line zero [] b h t = refl
clean-line (suc k) [] b h t = ground arith
clean-line (suc k) (c ∷ a) b h t = clean-line k a b h t.1
clean-line zero (c ∷ a) b h t =
    let p = clean-IsHead c (a ++ b'\n' ∷ b) h in
    clean-cons c a p.rune p.more
      (decode-prefix c a (b'\n' ∷ b) p.rune p.more p.read (tails-fit p.more a b p.tails)) p.shown
      (clean-line p.more a b p.rest p.tails)

kept-clean :
    (field : Text) (s : Scan) (r : ℕ) (written : Text)
    → clean_from 0 s.out ≡ true
    → clean_from 0 written ≡ true
    → clean_from 0 (kept_char field s r written).out ≡ true
unfolding kept_char next_line flush
kept-clean field s r written h g = elim (Bool-cases (r =ℕ b'\n')) [
  | inl e ↦ rw e (clean-append 0 s.out written h g)
  | inr e ↦ rw e (clean-append 0 s.out written h g)
]

out-scan_by :
    (field : Text) (s : Scan) (c : ℕ) (text : Text) (o : Option (ℕ × ℕ))
    → decode (c ∷ text) ≡ o
    → clean_from 0 s.out ≡ true
    → clean_from 0 (scan_by field s (c ∷ text) o).0.out ≡ true
unfolding scan_by
out-scan_by field s c text none e h = h
out-scan_by field s c text (some (r, n)) e h = elim (Bool-cases (r =ℕ 0x1B)) [
  | inl esc ↦ rw esc h
  | inr esc ↦ elim (Bool-cases (invisible r)) [
    | inl i ↦ rw (esc, i) h
    | inr i ↦ rw (esc, i) (kept-clean field s r _ h (clean-char c text r n e i))
  ]
]

pub out-scan :
    (field : Text) (skip : ℕ) (s : Scan) (text : Text)
    → clean_from 0 s.out ≡ true
    → clean_from 0 (scan field skip s text).out ≡ true
unfolding scan scan_char
out-scan field skip s [] h = h
out-scan field (suc skip) s (c ∷ text) h = out-scan field skip s text h
out-scan field zero s (c ∷ text) h = out-scan field _ _ text (out-scan_by field s c text _ refl h)
