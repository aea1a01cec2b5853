-- ===== src/Redact/Settled.antt =====
-- internal/redact/redact.go: one pass over a value leaves nothing for another, and the report tells
-- whether anything went.
use dsforms.Common.{
  suc, ◌-◌, ◌<◌, ◌=ℕ◌, leb, if◌then◌else◌, ltb→lt, Bool-cases, and-eq-true, length, length-append,
  length-take, length-drop, take, drop, keep, Text, eq_sound, ◌==◌, cut, split, ◌≡◌, refl, sym, ap,
  ◌∙◌, subst, ◌↔◌, ◌⊎◌, inl, inr, Bool, true, false, ◌&&◌, not, Option, none, some, List, [], ◌∷◌,
  ◌++◌, arith,
}
use dsforms.Redact.Invisible.{Hit, clean_from, strip_invisible}
use dsforms.Redact.Markers.{line_markers, strip_forged_turn}
use dsforms.Redact.Cut.{is_unforged, strip-unforged, strip-forged, kept-clean}
use dsforms.Redact.Noted.{strip-clean, strip-unclean, clean-strip}
use dsforms.Redact.{summary, value, report, cap_hits, sort_hits, insert_hit, max_hits_per_field}

-- Nothing in the text is invisible, malformed or a forged turn.
abbrev pub is_plain : Text → Bool
is_plain text = clean_from 0 text && is_unforged text

length-insert_hit : (h : Hit) (hits : List Hit) → length (insert_hit h hits) ≡ suc (length hits)
unfolding insert_hit
length-insert_hit h [] = refl
length-insert_hit h (g ∷ hits) = ground (arith, length-insert_hit h hits)

pub length-sort_hits : (hits : List Hit) → length (sort_hits hits) ≡ length hits
unfolding sort_hits
length-sort_hits [] = refl
length-sort_hits (h ∷ hits) =
    omega (arith, length-insert_hit h (sort_hits hits), length-sort_hits hits)

length-summary : (hits : List Hit) → 0 < length hits → length (summary hits) ≡ 1
unfolding summary
length-summary [] h = ground arith
length-summary (h ∷ hits) p = refl

pub length-cap_hits :
    (hits : List Hit)
    → length (cap_hits hits)
      ≡ (if leb (length hits) max_hits_per_field then length hits else max_hits_per_field)
unfolding cap_hits
length-cap_hits hits = elim (Bool-cases (leb (length hits) max_hits_per_field)) [
  | inl e ↦ rw e refl
  | inr e ↦
      let n = ltb→lt (max_hits_per_field - 1) (length hits) (ground (arith, e)) in
      rw e (
        omega (
          arith,
          length-append (take 15 hits) (summary (drop 15 hits)),
          length-take 15 hits (omega (arith, n)),
          length-summary (drop 15 hits) (omega (arith, n, length-drop 15 hits (omega (arith, n)))),
        ))
]

report-none : report [] none ≡ []
unfolding report cap_hits
report-none = refl

length-report :
    (invisible : List Hit) (forged : Option Hit)
    → (0 < length invisible) ⊎ ((h : Hit) × (forged ≡ some h))
    → 0 < length (report invisible forged)
unfolding report
length-report invisible none (inl h) = ground (arith, length-cap_hits invisible, h)
length-report invisible none (inr (h, e)) = ground arith
length-report invisible (some forged) h =
    let hits = keep (λ h. not (leb forged.line h.line && leb h.line forged.through)) invisible in
    ground (
      arith,
      length-cap_hits (sort_hits (hits ++ forged ∷ [])),
      length-sort_hits (hits ++ forged ∷ []),
      length-append hits (forged ∷ []),
    )

value-plain : (field text : Text) → is_plain text ≡ true → value field text ≡ (text, [])
unfolding value
value-plain field text h =
    let (c, u) = and-eq-true (clean_from 0 text) (is_unforged text) h in
    rw (strip-clean field text c, strip-unforged field text u, report-none)
      (ground (arith, eq_sound text []))

is_plain-[] : is_plain [] ≡ true
is_plain-[] = unfold clean_from line_markers split in refl

-- What one pass over a value leaves.
abbrev pub Pass : Text → Text × List Hit → Type 0
Pass text r = (is_plain r.0 ≡ true) × (is_plain text ≡ false → 0 < length r.1)

forged-Pass :
    (field text : Text) (d : Text) (invisible : List Hit)
    → strip_invisible field text ≡ (d, invisible)
    → is_unforged d ≡ false
    → Pass text ((strip_forged_turn field d).0, report invisible (strip_forged_turn field d).1)
forged-Pass field text d invisible e h =
    let (k, (found, cut), fits, u) = strip-forged field d h in
    let c : clean_from 0 d ≡ true =
      subst (λ r. clean_from 0 r.0 ≡ true) e (clean-strip field text) in
    rw cut
      (rw (kept-clean k d fits c, u) refl, λ _. length-report invisible (some _) (inr (_, refl)))

unforged-Pass :
    (field text : Text) (d : Text) (invisible : List Hit)
    → strip_invisible field text ≡ (d, invisible)
    → is_unforged d ≡ true
    → Pass text ((strip_forged_turn field d).0, report invisible (strip_forged_turn field d).1)
unforged-Pass field text d invisible e h =
    let c : clean_from 0 d ≡ true =
      subst (λ r. clean_from 0 r.0 ≡ true) e (clean-strip field text) in
    rw (strip-unforged field d h) (
      rw (c, h) refl,
      λ p. length-report invisible none (
          inl (elim (Bool-cases (clean_from 0 text)) [
            | inl k ↦
                let same : text ≡ d = ap (λ r. r.0) (sym (strip-clean field text k) ∙ e) in
                absurd (ground (arith, p, k, subst (λ t. is_unforged t ≡ true) (sym same) h))
            | inr k ↦ subst (λ r. 0 < length r.1) e (strip-unclean field text k)
          ])),
    )

value_empty : (field : Text) → Pass [] (value field [])
value_empty field =
    rw (value-plain field [] is_plain-[])
      (is_plain-[], λ p. absurd (ground (arith, is_plain-[], p)))

pub value-Pass : (field text : Text) → Pass text (value field text)
unfolding value
value-Pass field text = elim (Bool-cases (text == [])) [
  | inl e ↦ subst (λ t. Pass t (value field t)) (sym (eq_sound text [] e)) (value_empty field)
  | inr e ↦ rw e (elim (Bool-cases (is_unforged (strip_invisible field text).0)) [
    | inl u ↦ unforged-Pass field text _ _ refl u
    | inr u ↦ forged-Pass field text _ _ refl u
  ])
]

-- A value that was cleaned is not cleaned further, under any name: a second pass reports nothing and
-- changes nothing.
pub value-again :
    (field again text : Text) → value again (value field text).0 ≡ ((value field text).0, [])
value-again field again text = value-plain again (value field text).0 ((value-Pass field text).0)

-- Whether a value has hits depends on the value alone.
pub silent : (field text : Text) → (length (value field text).1 =ℕ 0) ≡ is_plain text
silent field text = elim (Bool-cases (is_plain text)) [
  | inl p ↦ rw (value-plain field text p) (sym p)
  | inr p ↦ rw p (ground (arith, (value-Pass field text).1 p))
]

-- A value has no hit exactly if it is served unchanged.
pub value-silent_iff :
    (field text : Text) → ((value field text).1 ≡ []) ↔ ((value field text).0 ≡ text)
value-silent_iff field text = (
  λ h. elim (Bool-cases (is_plain text)) [
    | inl p ↦ ap (λ r. r.0) (value-plain field text p)
    | inr p ↦ absurd (omega (arith, ap length h, (value-Pass field text).1 p))
  ],
  λ h. ap (λ r. r.1) (ap (value field) (sym h) ∙ value-again field field text),
)
