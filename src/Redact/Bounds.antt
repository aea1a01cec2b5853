-- ===== src/Redact/Bounds.antt =====
-- internal/redact/redact.go: a report is short, its lines are lines of the value as it was submitted,
-- and no value grows.
use dsforms.Common.{
  ℕ, zero, suc, ◌+◌, ◌-◌, ◌≤◌, ◌<◌, ◌=ℕ◌, ltb, leb, if◌then◌else◌, Bool-cases, length, take, drop,
  keep, All, All-append, All-map, All-keep, All-take, All-drop, Text, ◌==◌, cut, split, ◌≡◌, refl,
  sym, subst, inl, inr, true, false, ◌&&◌, not, Option, none, some, List, [], ◌∷◌, ◌++◌, arith,
}
use dsforms.Common.Splits.{pieces-count}
use dsforms.Redact.Invisible.{
  Hit, Scan, flush, invisible, removed_hits, bad_hits, kept_char, next_line, scan_char, scan_by,
  scan, clean_from, strip_invisible, started,
}
use dsforms.Redact.Lines.{newlines, scan_lines}
use dsforms.Redact.Markers.{Marker, strip_forged_turn, forged_hit}
use dsforms.Redact.Cut.{is_unforged, strip-unforged, strip-forged}
use dsforms.Redact.Lengths.{length-value}
use dsforms.Redact.Settled.{length-cap_hits}
use dsforms.Redact.{
  summary, last_through, value, report, cap_hits, sort_hits, insert_hit, max_hits_per_field,
}

-- The lines of a hit are among the first `n`.
abbrev pub IsWithin : ℕ → Hit → Type 0
IsWithin n h = (1 ≤ h.line) × (h.line ≤ n) × (1 ≤ h.through) × (h.through ≤ n)

more-IsWithin : (m n : ℕ) (hits : List Hit) → m ≤ n → All (IsWithin m) hits → All (IsWithin n) hits
more-IsWithin m n hits le h =
    All-map (IsWithin m) (IsWithin n) (λ _ w. (w.0, omega (arith, w.1), w.2, omega (arith, w.3)))
      hits h

removed_hits-IsWithin :
    (field : Text) (line : ℕ) (rs : List ℕ)
    → 1 ≤ line
    → All (IsWithin line) (removed_hits field line rs)
unfolding removed_hits
removed_hits-IsWithin field line [] h = tt
removed_hits-IsWithin field line (r ∷ rs) h = ((h, omega arith, h, omega arith), tt)

bad_hits-IsWithin :
    (field : Text) (line bad : ℕ) → 1 ≤ line → All (IsWithin line) (bad_hits field line bad)
unfolding bad_hits
bad_hits-IsWithin field line zero h = tt
bad_hits-IsWithin field line (suc bad) h = ((h, omega arith, h, omega arith), tt)

-- What was reported so far lies in the lines read so far.
abbrev Reported : Scan → Type 0
Reported s = (1 ≤ s.line) × All (IsWithin s.line) s.hits

flush-Reported : (field : Text) (s : Scan) → Reported s → Reported (flush field s)
unfolding flush
flush-Reported field s (l, h) = (
  l,
  All-append (IsWithin s.line) s.hits _ h (
      All-append (IsWithin s.line) (removed_hits field s.line s.removed) _
        (removed_hits-IsWithin field s.line s.removed l) (bad_hits-IsWithin field s.line s.bad l)),
)

kept_char-Reported :
    (field : Text) (s : Scan) (r : ℕ) (written : Text)
    → Reported s
    → Reported (kept_char field s r written)
unfolding kept_char next_line
kept_char-Reported field s r written h = elim (Bool-cases (r =ℕ b'\n')) [
  | inl e ↦
      let (l, w) = flush-Reported field s h in
      rw e (
        omega arith,
        more-IsWithin (flush field s).line ((flush field s).line + 1) _ (omega arith) w,
      )
  | inr e ↦ rw e h
]

scan_by-Reported :
    (field : Text) (s : Scan) (text : Text) (o : Option (ℕ × ℕ))
    → Reported s
    → Reported (scan_by field s text o).0
unfolding scan_by
scan_by-Reported field s text none h = h
scan_by-Reported field s text (some (r, n)) h = elim (Bool-cases (r =ℕ 0x1B)) [
  | inl esc ↦ rw esc h
  | inr esc ↦ elim (Bool-cases (invisible r)) [
    | inl i ↦ rw (esc, i) h
    | inr i ↦ rw (esc, i) (kept_char-Reported field s r (take n text) h)
  ]
]

scan-Reported :
    (field : Text) (skip : ℕ) (s : Scan) (text : Text)
    → Reported s
    → Reported (scan field skip s text)
unfolding scan scan_char
scan-Reported field skip s [] h = h
scan-Reported field (suc skip) s (c ∷ text) h = scan-Reported field skip s text h
scan-Reported field zero s (c ∷ text) h =
    scan-Reported field _ _ text (scan_by-Reported field s (c ∷ text) _ h)

-- The removal of invisible text keeps every newline, and reports lines of the text.
pub strip_invisible-lines :
    (field text : Text)
    → (newlines (strip_invisible field text).0 ≡ newlines text)
      × All (IsWithin (suc (newlines text))) (strip_invisible field text).1
unfolding strip_invisible
strip_invisible-lines field text = elim (Bool-cases (clean_from 0 text)) [
  | inl e ↦ rw e (refl, tt)
  | inr e ↦
      let (out, line) = scan_lines field 0 started text in
      let last : (scan field 0 started text).line ≡ suc (newlines text) = omega (arith, line) in
      let s' = scan field 0 started text in
      let w : Reported (flush field s') =
        flush-Reported field s' (scan-Reported field 0 started text (omega arith, tt)) in
      rw e (
        unfold flush in (omega (arith, out)),
        subst (λ n. All (IsWithin n) (flush field (scan field 0 started text)).hits) last
            (unfold flush in w.1),
      )
]

insert_hit-IsWithin :
    (n : ℕ) (h : Hit) (hits : List Hit)
    → IsWithin n h
    → All (IsWithin n) hits
    → All (IsWithin n) (insert_hit h hits)
unfolding insert_hit
insert_hit-IsWithin n h [] w ws = (w, tt)
insert_hit-IsWithin n h (g ∷ hits) w ws =
    elim (ltb g.line h.line)
      as (λ b. All (IsWithin n) (if b then g ∷ insert_hit h hits else h ∷ g ∷ hits)) [
        | true ↦ (ws.0, insert_hit-IsWithin n h hits w ws.1)
        | false ↦ (w, ws)
      ]

sort_hits-IsWithin :
    (n : ℕ) (hits : List Hit) → All (IsWithin n) hits → All (IsWithin n) (sort_hits hits)
unfolding sort_hits
sort_hits-IsWithin n [] ws = tt
sort_hits-IsWithin n (h ∷ hits) ws =
    insert_hit-IsWithin n h (sort_hits hits) ws.0 (sort_hits-IsWithin n hits ws.1)

last_through-le :
    (n : ℕ) (h : Hit) (hits : List Hit)
    → IsWithin n h
    → All (IsWithin n) hits
    → (1 ≤ last_through h hits) × (last_through h hits ≤ n)
unfolding last_through
last_through-le n h [] w ws = (w.2, w.3)
last_through-le n h (g ∷ hits) w ws = last_through-le n g hits ws.0 ws.1

summary-IsWithin :
    (n : ℕ) (hits : List Hit) → All (IsWithin n) hits → All (IsWithin n) (summary hits)
unfolding summary
summary-IsWithin n [] ws = tt
summary-IsWithin n (h ∷ hits) ws =
    let (l, u) = last_through-le n h hits ws.0 ws.1 in ((ws.0.0, ws.0.1, l, u), tt)

cap_hits-IsWithin :
    (n : ℕ) (hits : List Hit) → All (IsWithin n) hits → All (IsWithin n) (cap_hits hits)
unfolding cap_hits
cap_hits-IsWithin n hits ws =
    elim (leb (length hits) max_hits_per_field)
      as (λ b. All (IsWithin n) (
        if b
        then hits
        else take (max_hits_per_field - 1) hits ++ summary (drop (max_hits_per_field - 1) hits))) [
          | true ↦ ws
          | false ↦
              All-append (IsWithin n) (take 15 hits) _ (All-take (IsWithin n) 15 hits ws)
                (summary-IsWithin n (drop 15 hits) (All-drop (IsWithin n) 15 hits ws))
        ]

abbrev IsForgedWithin : ℕ → Option Hit → Type 0
IsForgedWithin n none = Unit
IsForgedWithin n (some h) = IsWithin n h

report-IsWithin :
    (n : ℕ) (hits : List Hit) (forged : Option Hit)
    → All (IsWithin n) hits
    → IsForgedWithin n forged
    → All (IsWithin n) (report hits forged)
unfolding report
report-IsWithin n hits none ws f = cap_hits-IsWithin n hits ws
report-IsWithin n hits (some h) ws f = cap_hits-IsWithin n _ (
    sort_hits-IsWithin n _ (
      All-append (IsWithin n) (keep (λ g. not (leb h.line g.line && leb g.line h.through)) hits) _
        (All-keep (IsWithin n) _ hits ws) (f, tt)))

forged_hit-IsWithin :
    (n k : ℕ) (field text : Text) (found : List Marker)
    → length (split b'\n' text) ≡ n
    → k < n
    → IsWithin n (forged_hit field k (length (split b'\n' text) - 1) found)
unfolding forged_hit
forged_hit-IsWithin n k field text found e h =
    (omega arith, omega (arith, h), omega arith, omega (arith, e, h))

strip_forged_turn-IsForgedWithin :
    (n : ℕ) (field text : Text)
    → length (split b'\n' text) ≡ n
    → IsForgedWithin n (strip_forged_turn field text).1
strip_forged_turn-IsForgedWithin n field text e = elim (Bool-cases (is_unforged text)) [
  | inl u ↦ rw (strip-unforged field text u) tt
  | inr u ↦
      let (k, (found, cut), fits, _) = strip-forged field text u in
      rw cut (forged_hit-IsWithin n k field text found e (omega (arith, e, fits)))
]

value-IsWithin :
    (field text : Text) → All (IsWithin (length (split b'\n' text))) (value field text).1
unfolding value
value-IsWithin field text =
    let n = length (split b'\n' text) in
    let (d, hits) = strip_invisible field text in
    let (kept, w) = strip_invisible-lines field text in
    let ws = subst (λ n. All (IsWithin n) hits) (sym (pieces-count b'\n' text)) w in
    elim (Bool-cases (text == [])) [
      | inl e ↦ rw e tt
      | inr e ↦ rw e (
          report-IsWithin n hits (strip_forged_turn field d).1 ws (
            strip_forged_turn-IsForgedWithin n field d
              (omega (arith, pieces-count b'\n' d, pieces-count b'\n' text, kept))))
    ]

length-report :
    (hits : List Hit) (forged : Option Hit) → length (report hits forged) ≤ max_hits_per_field
unfolding report
length-report hits none = ground (arith, length-cap_hits hits)
length-report hits (some h) = ground (
  arith,
  length-cap_hits
      (sort_hits (keep (λ g. not (leb h.line g.line && leb g.line h.through)) hits ++ h ∷ [])),
)

value-count : (field text : Text) → length (value field text).1 ≤ max_hits_per_field
unfolding value
value-count field text = ground (
  arith,
  length-report (strip_invisible field text).1
      (strip_forged_turn field (strip_invisible field text).0).1,
)

-- A value that is served is no longer than what was submitted, and its report has at most
-- `max_hits_per_field` entries, whose first and last lines are lines of the value as submitted.
pub value_bounded :
    (field text : Text)
    → (length (value field text).0 ≤ length text)
      × (length (value field text).1 ≤ max_hits_per_field)
      × All (IsWithin (length (split b'\n' text))) (value field text).1
value_bounded field text =
    (length-value field text, value-count field text, value-IsWithin field text)
