-- ===== src/Screen/Score/Added.antt =====
-- internal/screen/internal/score/detail.go: what the loop over the fields adds, check by check, is a
-- list of signals with their weight on the score.
use dsforms.Common.{
  ℕ, ◌+◌, ◌*◌, ltb, if◌then◌else◌, Bool-cases, Text, contains, occurrences, mem, ◌≡◌, refl, ap, ◌∙◌,
  inl, inr, ◌&&◌, Option, none, some, List, [], ◌∷◌, ◌++◌, arith,
}
use mathlib.Core.List.{append-nil, append_assoc}
use native.Mathlib.Nat.{add-zero, add_assoc}
use dsforms.Screen.Platform.{Platform}
use dsforms.Screen.Score.Gibberish.{gibberish_token, contains_link}
use dsforms.Screen.Score.{
  Signal, Check, Found, markup, sql, keyword, gibberish, url_in_name, markup_weight, keyword_weight,
  url_in_name_weight, gibberish_weight, name_field_keys, markup_link_markers, sql_injection_markers,
  truncate_match, add_markers, add_keywords, add_name, add_token, add_field, field_links, scan,
}

unfoldable pub weigh : List Signal → ℕ
weigh [] = 0
weigh (s ∷ signals) = s.weight + weigh signals

-- One signal for each marker that occurs, of the weight of a markup hit for each occurrence.
unfoldable pub marker_signals : Check → Text → Text → List Text → List Signal
unfolding occurrences
marker_signals check key lower [] = []
marker_signals check key lower (m ∷ ms) =
    let rest = marker_signals check key lower ms in
    let n = occurrences lower m in
    if ltb 0 n
    then record { check = check; field = key; matched = m; weight = markup_weight * n } ∷ rest
    else rest

unfoldable pub keyword_signals : Text → Text → List Text → List Signal
unfolding contains
keyword_signals key lower [] = []
keyword_signals key lower (kw ∷ kws) =
    let rest = keyword_signals key lower kws in
    if contains lower kw
    then record { check = keyword; field = key; matched = kw; weight = keyword_weight } ∷ rest
    else rest

unfoldable pub name_signals : Platform → Text → Text → List Signal
unfolding mem contains_link truncate_match
name_signals p key value =
    if mem (p.to_lower key) name_field_keys && contains_link (p.to_lower value)
    then record {
      check = url_in_name;
      field = key;
      matched = truncate_match p value;
      weight = url_in_name_weight;
    }
      ∷ []
    else []

unfoldable pub token_signals : Platform → Text → Option Text → List Signal
unfolding truncate_match
token_signals p key none = []
token_signals p key (some token) =
    record {
      check = gibberish;
      field = key;
      matched = truncate_match p token;
      weight = gibberish_weight;
    }
    ∷ []

unfoldable pub gibberish_signals : Platform → Text → Text → List Signal
unfolding token_signals gibberish_token
gibberish_signals p key value = token_signals p key (gibberish_token p value)

-- The signals of link markup and of injection probes.
unfoldable pub marker_hits : Platform → Text × Text → List Signal
unfolding marker_signals
marker_hits p (key, value) =
    marker_signals markup key (p.to_lower value) markup_link_markers
    ++ marker_signals sql key (p.to_lower value) sql_injection_markers

-- The signals of one field, in the order in which the loop body finds them.
unfoldable pub field_signals : Platform → List Text → Text × Text → List Signal
field_signals p keywords (key, value) =
    marker_hits p (key, value)
    ++ (keyword_signals key (p.to_lower value) keywords
        ++ (name_signals p key value ++ gibberish_signals p key value))

-- The loop, told by the signals that a field has.
unfoldable pub told :
    Platform → List Text → List (Text × Text) → ℕ → ℕ → List Signal → ℕ × ℕ × List Signal
unfolding field_signals weigh
told p keywords [] score links signals = (score, links, signals)
told p keywords ((key, value) ∷ fs) score links signals =
    let found = field_signals p keywords (key, value) in
    told p keywords fs (score + weigh found) (links + field_links p value) (signals ++ found)

pub weigh-append : (xs ys : List Signal) → weigh (xs ++ ys) ≡ weigh xs + weigh ys
unfolding weigh
weigh-append [] ys = omega arith
weigh-append (x ∷ xs) ys = omega (arith, weigh-append xs ys)

-- What a check adds is a list of signals, with their weight on the score.
abbrev adds : List Signal → Found → Found
adds found t = (t.0 + weigh found, t.1 ++ found)

adds-nil : (t : Found) → t ≡ adds [] t
unfolding weigh
adds-nil t = rw (add-zero t.0, append-nil t.1) refl

adds-adds : (xs ys : List Signal) (t : Found) → adds ys (adds xs t) ≡ adds (xs ++ ys) t
adds-adds xs ys t =
    rw (weigh-append xs ys, add_assoc t.0 (weigh xs) (weigh ys), append_assoc t.1 xs ys) refl

adds-one :
    (s : Signal) (t : Found) → ◌≡◌ {A = Found} (t.0 + s.weight, t.1 ++ s ∷ []) (adds (s ∷ []) t)
unfolding weigh
adds-one s t = rw (add-zero s.weight) refl

adds-markers :
    (check : Check) (key lower : Text) (ms : List Text) (t : Found)
    → add_markers check key lower ms t ≡ adds (marker_signals check key lower ms) t
unfolding add_markers marker_signals
adds-markers check key lower [] t = adds-nil t
adds-markers check key lower (m ∷ ms) t = elim (Bool-cases (ltb 0 (occurrences lower m))) [
  | inl e ↦ rw e (
      adds-markers check key lower ms _
      ∙ ap (adds (marker_signals check key lower ms)) (adds-one _ t)
      ∙ adds-adds _ (marker_signals check key lower ms) t)
  | inr e ↦ rw e (adds-markers check key lower ms t)
]

adds-keywords :
    (key lower : Text) (kws : List Text) (t : Found)
    → add_keywords key lower kws t ≡ adds (keyword_signals key lower kws) t
unfolding add_keywords keyword_signals
adds-keywords key lower [] t = adds-nil t
adds-keywords key lower (kw ∷ kws) t = elim (Bool-cases (contains lower kw)) [
  | inl e ↦ rw e (
      adds-keywords key lower kws _
      ∙ ap (adds (keyword_signals key lower kws)) (adds-one _ t)
      ∙ adds-adds _ (keyword_signals key lower kws) t)
  | inr e ↦ rw e (adds-keywords key lower kws t)
]

adds-name :
    (p : Platform) (key value : Text) (t : Found)
    → add_name p key value t ≡ adds (name_signals p key value) t
unfolding add_name name_signals
adds-name p key value t =
    elim (Bool-cases (mem (p.to_lower key) name_field_keys && contains_link (p.to_lower value))) [
      | inl e ↦ rw e (adds-one _ t)
      | inr e ↦ rw e (adds-nil t)
    ]

adds-token :
    (p : Platform) (key : Text) (o : Option Text) (t : Found)
    → add_token p key o t ≡ adds (token_signals p key o) t
unfolding add_token token_signals
adds-token p key none t = adds-nil t
adds-token p key (some token) t = adds-one _ t

adds-field :
    (p : Platform) (kws : List Text) (key value : Text) (t : Found)
    → add_field p kws key value t ≡ adds (field_signals p kws (key, value)) t
unfolding add_field field_signals marker_hits gibberish_signals
adds-field p kws key value t =
    let lower = p.to_lower value in
    let links = marker_signals markup key lower markup_link_markers in
    let probes = marker_signals sql key lower sql_injection_markers in
    let words = keyword_signals key lower kws in
    let named = name_signals p key value in
    let token = token_signals p key (gibberish_token p value) in
    adds-token p key (gibberish_token p value) _
    ∙ ap (adds token) (
        adds-name p key value _
        ∙ ap (adds named) (
            adds-keywords key lower kws _
            ∙ ap (adds words) (
                adds-markers sql key lower sql_injection_markers _
                ∙ ap (adds probes) (adds-markers markup key lower markup_link_markers t)
                ∙ adds-adds links probes t)))
    ∙ adds-adds named token _
    ∙ adds-adds words (named ++ token) _
    ∙ adds-adds (links ++ probes) (words ++ (named ++ token)) t

pub scan-told :
    (p : Platform) (kws : List Text) (fs : List (Text × Text)) (score links : ℕ)
    (signals : List Signal)
    → scan p kws fs score links signals ≡ told p kws fs score links signals
unfolding scan told
scan-told p kws [] score links signals = refl
scan-told p kws ((key, value) ∷ fs) score links signals =
    ap (λ (t : Found). scan p kws fs t.0 (links + field_links p value) t.1)
      (adds-field p kws key value (score, signals))
    ∙ scan-told p kws fs _ (links + field_links p value) _
