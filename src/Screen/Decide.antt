-- ===== src/Screen/Decide.antt =====
-- internal/screen/screen.go: the decision over a submission, and the audit of the stored rules.
pub mod Verdicts
use dsforms.Common.{
  ℕ, ◌+◌, leb, if◌then◌else◌, Text, ◌==◌, fields, Bool, true, false, ◌&&◌, ◌||◌, not, Option, none,
  some, List, [], ◌∷◌, ◌++◌,
}
use dsforms.Screen.Platform.{Platform}
use dsforms.Common.Int.{ℤ, pos, pos_part, ltb_ℤ}
use dsforms.Screen.Rules.{
  Rule, kind_allow, kind_block, type_keyword, match, keywords, validate, normal, refused, Problem,
}
use dsforms.Screen.Score.{Signal, repeat_ip, blocked, default_threshold, detail_with}
use dsforms.Repeat.{Tracker, seen}

abbrev pub min_threshold : ℕ
min_threshold = 1

abbrev pub max_threshold : ℕ
max_threshold = 20

pub record Input : Type 0 where
  pub form_id : Text
  pub fields : List (Text × Text)
  pub ip : Text
  pub rules : List Rule
  pub threshold : ℤ

pub record Verdict : Type 0 where
  pub hold : Bool
  pub score : ℕ
  pub signals : List Signal
  pub threshold : ℕ
  pub is_matched : Bool
  pub matched_rule_id : Text

-- A threshold is an `int`, which can be negative.
unfoldable pub clamp_threshold : ℤ → ℕ
clamp_threshold t =
    if ltb_ℤ t (pos min_threshold)
    then default_threshold
    else if ltb_ℤ (pos max_threshold) t
    then max_threshold
    else pos_part t

-- The two branches of a rule that decides, and the branch of the content score.
unfoldable pub allowed : ℕ → Rule → Verdict
allowed threshold r = record {
  hold = false;
  score = 0;
  signals = [];
  threshold = threshold;
  is_matched = true;
  matched_rule_id = r.id;
}

unfoldable pub blocked_by : ℕ → Rule → Verdict
blocked_by threshold r = record {
  hold = true;
  score = threshold;
  signals = record { check = blocked; field = []; matched = r.value; weight = threshold } ∷ [];
  threshold = threshold;
  is_matched = true;
  matched_rule_id = r.id;
}

unfoldable pub add_repeat : Text → ℕ → Bool → ℕ × List Signal → ℕ × List Signal
add_repeat ip threshold repeated (score, signals) =
    if repeated
    then (
      score + threshold,
      signals ++ record { check = repeat_ip; field = []; matched = ip; weight = threshold } ∷ [],
    )
    else (score, signals)

unfoldable pub scored : ℕ → ℕ × List Signal → Verdict
scored threshold (score, signals) = record {
  hold = leb threshold score;
  score = score;
  signals = signals;
  threshold = threshold;
  is_matched = false;
  matched_rule_id = [];
}

unfoldable pub decide_content : Platform → Input → ℕ → Bool → Verdict
unfolding scored add_repeat detail_with keywords
decide_content p input threshold repeated =
    scored threshold
      (add_repeat input.ip threshold repeated (detail_with p input.fields (keywords input.rules)))

unfoldable pub decide_by : Platform → Input → ℕ → Bool → Option Rule → Verdict
unfolding allowed blocked_by decide_content
decide_by p input threshold repeated none = decide_content p input threshold repeated
decide_by p input threshold repeated (some r) =
    if r.kind == kind_allow
    then allowed threshold r
    else if r.kind == kind_block
    then blocked_by threshold r
    else decide_content p input threshold repeated

-- `decide`
unfoldable pub decide_repeated : Platform → Input → Bool → Verdict
unfolding decide_by match clamp_threshold
decide_repeated p input repeated =
    decide_by p input (clamp_threshold input.threshold) repeated
      (match p input.rules input.fields input.ip)

-- `Decide`: the tracker counts the submission whatever the rules say; `none` is a panic of the tracker.
unfoldable pub decide : Platform → Tracker → Input → Option (Tracker × Verdict)
unfolding seen decide_repeated
decide p t input = elim (seen t input.form_id input.ip) [
  | none ↦ none
  | some (u, repeated) ↦ some (u, decide_repeated p input repeated)
]

pub data Fault : Type 0 where
  unknown_kind allow_keyword : Fault
  no_longer_valid : Problem → Fault
  never_produced : Text → Fault

-- What `CheckRules` says of one rule.
unfoldable pub fault_of : Platform → Rule → Option Fault
unfolding validate
fault_of p r =
    if not (r.kind == kind_allow || r.kind == kind_block)
    then some unknown_kind
    else if r.kind == kind_allow && r.type == type_keyword
    then some allow_keyword
    else elim (validate p r.type r.value) [
      | refused why ↦ some (no_longer_valid why)
      | normal norm ↦ if norm == r.value then none else some (never_produced norm)
    ]

unfoldable pub check_rules : Platform → List Rule → List (Rule × Fault)
unfolding fault_of
check_rules p [] = []
check_rules p (r ∷ rules) =
    let rest = check_rules p rules in elim (fault_of p r) [ none ↦ rest | some f ↦ (r, f) ∷ rest ]
