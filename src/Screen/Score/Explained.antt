-- ===== src/Screen/Score/Explained.antt =====
-- The score is what its breakdown adds up to, and custom keywords only ever add.
use dsforms.Common.{
  ℕ, ◌+◌, ◌-◌, ◌*◌, ltb, Bool-cases, count, Text, contains, ◌≡◌, refl, inl, inr, List, [], ◌∷◌,
  ◌++◌, arith,
}
use dsforms.Common.Sorted.{sort_fields}
use dsforms.Screen.Platform.{Platform}
use dsforms.Screen.Score.Added.{
  weigh, weigh-append, told, scan-told, marker_hits, field_signals, name_signals, gibberish_signals,
  keyword_signals,
}
use dsforms.Screen.Score.{
  Signal, keyword_weight, spam_keywords, added_keywords, all_keywords, field_links,
  with_extra_links, detail_with, detail, extra_link_weight,
}

told-weigh :
    (p : Platform) (kws : List Text) (fs : List (Text × Text)) (score links : ℕ)
    (signals : List Signal)
    → score ≡ weigh signals
    → (told p kws fs score links signals).0 ≡ weigh (told p kws fs score links signals).2
unfolding told
told-weigh p kws [] score links signals h = h
told-weigh p kws ((key, value) ∷ fs) score links signals h =
    told-weigh p kws fs (score + weigh (field_signals p kws (key, value)))
      (links + field_links p value) (signals ++ field_signals p kws (key, value))
      (omega (arith, weigh-append signals (field_signals p kws (key, value)), h))

extra-weigh :
    (score links : ℕ) (signals : List Signal)
    → score ≡ weigh signals
    → (with_extra_links (score, links, signals)).0
      ≡ weigh (with_extra_links (score, links, signals)).1
unfolding with_extra_links
extra-weigh score links signals h = elim (Bool-cases (ltb 1 links)) [
  | inl e ↦ rw e (rw (weigh-append signals) (unfold weigh in omega arith))
  | inr e ↦ rw e h
]

-- The score of a submission is the sum of the weights of its signals, custom keywords or none.
pub detail_with-weigh :
    (p : Platform) (fs : List (Text × Text)) (extra : List Text)
    → (detail_with p fs extra).0 ≡ weigh (detail_with p fs extra).1
unfolding detail_with
detail_with-weigh p fs extra = rw (scan-told p (all_keywords p extra) (sort_fields fs) 0 0 []) (
    extra-weigh _ _ _
      (told-weigh p (all_keywords p extra) (sort_fields fs) 0 0 [] (unfold weigh in refl)))

-- What the fields add to the score, and to the count of links.
field_total : Platform → List Text → List (Text × Text) → ℕ
field_total p kws [] = 0
field_total p kws (f ∷ fs) = weigh (field_signals p kws f) + field_total p kws fs

told-totals :
    (p : Platform) (kws more : List Text) (fs : List (Text × Text)) (s t links : ℕ)
    (xs ys : List Signal)
    → ((told p kws fs s links xs).0 ≡ s + field_total p kws fs)
      × ((told p kws fs s links xs).1 ≡ (told p more fs t links ys).1)
unfolding told field_total
told-totals p kws more [] s t links xs ys = (omega arith, refl)
told-totals p kws more ((key, value) ∷ fs) s t links xs ys =
    let (score, same) =
      told-totals p kws more fs (s + weigh (field_signals p kws (key, value)))
        (t + weigh (field_signals p more (key, value))) (links + field_links p value)
        (xs ++ field_signals p kws (key, value)) (ys ++ field_signals p more (key, value)) in
    (omega (arith, score), same)

-- The fields and custom keywords that meet: a pair for each keyword that a field's value contains.
pub hits : Platform → List Text → List (Text × Text) → ℕ
hits p kws [] = 0
hits p kws ((key, value) ∷ fs) = count (contains (p.to_lower value)) kws + hits p kws fs

keyword-weigh :
    (key lower : Text) (xs ys : List Text)
    → weigh (keyword_signals key lower (xs ++ ys))
      ≡ weigh (keyword_signals key lower xs) + keyword_weight * count (contains lower) ys
unfolding keyword_signals weigh
keyword-weigh key lower [] [] = refl
keyword-weigh key lower [] (y ∷ ys) = ground (arith, keyword-weigh key lower [] ys)
keyword-weigh key lower (x ∷ xs) ys = ground (arith, keyword-weigh key lower xs ys)

field-weigh :
    (p : Platform) (kws more : List Text) (f : Text × Text)
    → weigh (field_signals p (kws ++ more) f)
      ≡ weigh (field_signals p kws f) + keyword_weight * count (contains (p.to_lower f.1)) more
field-weigh p kws more (key, value) =
    unfold field_signals in
    omega (
      arith,
      weigh-append (marker_hits p (key, value))
          (keyword_signals key (p.to_lower value) (kws ++ more) ++ rest),
      weigh-append (marker_hits p (key, value))
          (keyword_signals key (p.to_lower value) kws ++ rest),
      weigh-append (keyword_signals key (p.to_lower value) (kws ++ more)) rest,
      weigh-append (keyword_signals key (p.to_lower value) kws) rest,
      keyword-weigh key (p.to_lower value) kws more,
    )
  where
    rest : List Signal
    rest = name_signals p key value ++ gibberish_signals p key value

total-weigh :
    (p : Platform) (kws more : List Text) (fs : List (Text × Text))
    → field_total p (kws ++ more) fs ≡ field_total p kws fs + keyword_weight * hits p more fs
unfolding field_total hits
total-weigh p kws more [] = refl
total-weigh p kws more ((key, value) ∷ fs) =
    omega (arith, field-weigh p kws more (key, value), total-weigh p kws more fs)

extra-score :
    (score links : ℕ) (signals : List Signal)
    → (with_extra_links (score, links, signals)).0 ≡ score + extra_link_weight * (links - 1)
unfolding with_extra_links
extra-score score links signals = ground arith

hits-nil : (p : Platform) (fs : List (Text × Text)) → hits p [] fs ≡ 0
unfolding hits
hits-nil p [] = refl
hits-nil p ((key, value) ∷ fs) = omega (arith, hits-nil p fs)

with_more :
    (p : Platform) (kws more : List Text) (fs : List (Text × Text))
    → (with_extra_links (told p (kws ++ more) fs 0 0 [])).0
      ≡ (with_extra_links (told p (kws ++ []) fs 0 0 [])).0 + keyword_weight * hits p more fs
with_more p kws more fs =
    let (scored, links) = told-totals p (kws ++ more) (kws ++ []) fs 0 0 0 [] [] in
    let (plain, same) = told-totals p (kws ++ []) (kws ++ []) fs 0 0 0 [] [] in
    omega (
      arith,
      extra-score (told p (kws ++ more) fs 0 0 []).0 (told p (kws ++ more) fs 0 0 []).1
          (told p (kws ++ more) fs 0 0 []).2,
      extra-score (told p (kws ++ []) fs 0 0 []).0 (told p (kws ++ []) fs 0 0 []).1
          (told p (kws ++ []) fs 0 0 []).2,
      scored,
      plain,
      links,
      total-weigh p kws more fs,
      total-weigh p kws [] fs,
      hits-nil p fs,
    )

-- Custom keywords only ever add: the score with them is the score without, and the weight of one
-- keyword for each pair of a field and an added keyword that its value contains. Blank keywords,
-- repeated ones and the built-in ones are not added.
detail_with-keywords :
    (p : Platform) (fs : List (Text × Text)) (extra : List Text)
    → (detail_with p fs extra).0
      ≡ (detail p fs).0
        + keyword_weight * hits p (added_keywords p spam_keywords extra) (sort_fields fs)
unfolding detail
detail_with-keywords p fs extra =
    let more = added_keywords p spam_keywords extra in
    rw
      (
        scan-told p (spam_keywords ++ more) (sort_fields fs) 0 0 [],
        scan-told p (spam_keywords ++ []) (sort_fields fs) 0 0 [],
      )
      (with_more p spam_keywords more (sort_fields fs))
