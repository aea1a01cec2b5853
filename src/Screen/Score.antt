-- ===== src/Screen/Score.antt =====
-- internal/screen/internal/score: spam.go, gibberish.go and detail.go, the content score of a
-- submission with the breakdown that explains it. Ratios that the source compares in float64 are
-- compared by cross-multiplication.
pub mod Gibberish
pub mod Added
pub mod Explained
use dsforms.Common.{
  ℕ, ◌+◌, ◌-◌, ◌*◌, ltb, leb, if◌then◌else◌, length, take, Text, bytes, ◌==◌, contains, occurrences,
  trim_space, mem, Bool, ◌&&◌, ◌||◌, Option, none, some, List, [], ◌∷◌, ◌++◌,
}
use dsforms.Common.Sorted.{sort_fields}
use dsforms.Screen.Platform.{Platform}
use Gibberish.{gibberish_token, contains_link}

abbrev pub default_threshold : ℕ
default_threshold = 6

abbrev pub markup_weight : ℕ
markup_weight = default_threshold

abbrev pub keyword_weight : ℕ
keyword_weight = 5

abbrev pub url_in_name_weight : ℕ
url_in_name_weight = 4

abbrev pub extra_link_weight : ℕ
extra_link_weight = 2

abbrev pub gibberish_weight : ℕ
gibberish_weight = 3

abbrev pub spam_keywords : List Text
spam_keywords =
    bytes "casino"
    ∷ bytes "viagra"
    ∷ bytes "cialis"
    ∷ bytes "backlinks"
    ∷ bytes "seo service"
    ∷ bytes "binary options"
    ∷ bytes "forex trading"
    ∷ bytes "forex signals"
    ∷ bytes "crypto pump"
    ∷ bytes "unsubscribe"
    ∷ []

abbrev pub markup_link_markers : List Text
markup_link_markers = bytes "[url=" ∷ bytes "[url]" ∷ bytes "[link]" ∷ bytes "<a href" ∷ []

abbrev pub sql_injection_markers : List Text
sql_injection_markers =
    bytes "union select"
    ∷ bytes "extractvalue("
    ∷ bytes "' or '1'='1"
    ∷ bytes "' or 1=1"
    ∷ bytes "xp_cmdshell"
    ∷ bytes "waitfor delay"
    ∷ bytes "-- -"
    ∷ []

abbrev pub name_field_keys : List Text
name_field_keys =
    bytes "name"
    ∷ bytes "fname"
    ∷ bytes "lname"
    ∷ bytes "firstname"
    ∷ bytes "lastname"
    ∷ bytes "full_name"
    ∷ []

abbrev max_match_runes : ℕ
max_match_runes = 200

pub data Check : Type 0 where
  markup sql keyword gibberish url_in_name extra_links repeat_ip blocked manual : Check

pub record Signal : Type 0 where
  pub check : Check
  pub field : Text
  pub matched : Text
  pub weight : ℕ

-- The custom keywords that join the built-in ones: lowered, trimmed, not blank, each once.
unfoldable pub added_keywords : Platform → List Text → List Text → List Text
unfolding mem trim_space
added_keywords p seen [] = []
added_keywords p seen (kw ∷ kws) =
    let k = p.to_lower (trim_space kw) in
    let skip = (k == []) || mem k seen in
    let rest = added_keywords p (if skip then seen else k ∷ seen) kws in
    if skip then rest else k ∷ rest

unfoldable pub all_keywords : Platform → List Text → List Text
unfolding added_keywords
all_keywords p extra = spam_keywords ++ added_keywords p spam_keywords extra

unfoldable pub truncate_match : Platform → Text → Text
truncate_match p s =
    if leb (length (p.runes s)) max_match_runes
    then s
    else p.of_runes (take max_match_runes (p.runes s))

-- The score and the signals so far. Each check adds to both, by two statements.
abbrev pub Found : Type 0
Found = ℕ × List Signal

-- One signal for each marker that occurs, of the weight of a markup hit for each occurrence.
unfoldable pub add_markers : Check → Text → Text → List Text → Found → Found
unfolding occurrences
add_markers check key lower [] t = t
add_markers check key lower (m ∷ ms) t =
    let n = occurrences lower m in
    let weight = markup_weight * n in
    let hit : Found = (
      t.0 + weight,
      t.1 ++ record { check = check; field = key; matched = m; weight = weight } ∷ [],
    ) in
    add_markers check key lower ms (if ltb 0 n then hit else t)

unfoldable pub add_keywords : Text → Text → List Text → Found → Found
unfolding contains
add_keywords key lower [] t = t
add_keywords key lower (kw ∷ kws) t =
    let hit : Found = (
      t.0 + keyword_weight,
      t.1 ++ record { check = keyword; field = key; matched = kw; weight = keyword_weight } ∷ [],
    ) in
    add_keywords key lower kws (if contains lower kw then hit else t)

unfoldable pub add_name : Platform → Text → Text → Found → Found
unfolding mem contains_link truncate_match
add_name p key value t =
    if mem (p.to_lower key) name_field_keys && contains_link (p.to_lower value)
    then (
      t.0 + url_in_name_weight,
      t.1
          ++ record {
            check = url_in_name;
            field = key;
            matched = truncate_match p value;
            weight = url_in_name_weight;
          }
            ∷ [],
    )
    else t

unfoldable pub add_token : Platform → Text → Option Text → Found → Found
unfolding truncate_match
add_token p key none t = t
add_token p key (some token) t = (
  t.0 + gibberish_weight,
  t.1
      ++ record {
        check = gibberish;
        field = key;
        matched = truncate_match p token;
        weight = gibberish_weight;
      }
        ∷ [],
)

-- The checks of one field, in the order of the loop body.
unfoldable pub add_field : Platform → List Text → Text → Text → Found → Found
unfolding add_markers add_keywords add_name add_token gibberish_token
add_field p keywords key value t =
    let lower = p.to_lower value in
    let t₁ = add_markers markup key lower markup_link_markers t in
    let t₂ = add_markers sql key lower sql_injection_markers t₁ in
    let t₃ = add_keywords key lower keywords t₂ in
    let t₄ = add_name p key value t₃ in add_token p key (gibberish_token p value) t₄

-- What one field adds to the count of links.
unfoldable pub field_links : Platform → Text → ℕ
unfolding occurrences
field_links p value =
    let lower = p.to_lower value in
    occurrences lower (bytes "http")
    + occurrences lower (bytes "www.")
    - occurrences lower (bytes "//www.")

-- The loop over the sorted fields: score, links and signals so far.
unfoldable pub scan :
    Platform → List Text → List (Text × Text) → ℕ → ℕ → List Signal → ℕ × ℕ × List Signal
unfolding add_field field_links
scan p keywords [] score links signals = (score, links, signals)
scan p keywords ((key, value) ∷ fs) score links signals =
    let t = add_field p keywords key value (score, signals) in
    scan p keywords fs t.0 (links + field_links p value) t.1

-- The links beyond the first.
unfoldable pub with_extra_links : ℕ × ℕ × List Signal → ℕ × List Signal
with_extra_links (score, links, signals) =
    if ltb 1 links
    then (
      score + extra_link_weight * (links - 1),
      signals
          ++ record {
            check = extra_links;
            field = [];
            matched = [];
            weight = extra_link_weight * (links - 1);
          }
            ∷ [],
    )
    else (score, signals)

unfoldable pub detail_with : Platform → List (Text × Text) → List Text → ℕ × List Signal
unfolding all_keywords sort_fields scan with_extra_links
detail_with p fs extra = with_extra_links (scan p (all_keywords p extra) (sort_fields fs) 0 0 [])

unfoldable pub detail : Platform → List (Text × Text) → ℕ × List Signal
unfolding detail_with
detail p fs = detail_with p fs []

unfoldable pub score : Platform → List (Text × Text) → ℕ
unfolding detail
score p fs = (detail p fs).0

unfoldable pub is_spam : Platform → List (Text × Text) → Bool
unfolding score
is_spam p fs = leb default_threshold (score p fs)
