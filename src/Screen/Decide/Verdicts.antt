-- ===== src/Screen/Decide/Verdicts.antt =====
-- What a verdict guarantees.
use dsforms.Common.{
  ℕ, ◌+◌, ◌≤◌, leb, if◌then◌else◌, Bool-cases, Text, eq_sound, eq_complete, ◌==◌, ◌≡◌, refl, ap,
  ◌∙◌, ◌⊎◌, inl, inr, Bool, true, false, not, Option, none, some, List, arith,
}
use dsforms.Common.Int.{ℤ}
use dsforms.Screen.Platform.{Platform}
use dsforms.Screen.Rules.{Rule, kind_allow, kind_block, match, keywords}
use dsforms.Screen.Rules.Matching.{match-Decides, applies-inv, by_allow, by_block}
use dsforms.Screen.Score.{Signal, detail_with}
use dsforms.Screen.Score.Added.{weigh, weigh-append}
use dsforms.Screen.Score.Explained.{detail_with-weigh}
use dsforms.Repeat.{Tracker, seen}
use dsforms.Repeat.Bounded.{IsValid, seen-IsValid}
use dsforms.Screen.Decide.{
  Input, Verdict, clamp_threshold, allowed, blocked_by, add_repeat, scored, decide_content,
  decide_by, decide_repeated, decide,
}

clamp_threshold_bounds : (t : ℤ) → (1 ≤ clamp_threshold t) × (clamp_threshold t ≤ 20)
unfolding clamp_threshold
clamp_threshold_bounds t = ground arith

-- The verdict explains itself: its signals add up to its score, and it holds exactly what reaches the
-- threshold, which lies in 1..20.
pub record IsExplained (v : Verdict) : Type 0 where
  pub sums : v.score ≡ weigh v.signals
  pub decides : v.hold ≡ leb v.threshold v.score
  pub bounds : (1 ≤ v.threshold) × (v.threshold ≤ 20)

add_repeat-weigh :
    (ip : Text) (threshold : ℕ) (repeated : Bool) (score : ℕ) (signals : List Signal)
    → score ≡ weigh signals
    → (add_repeat ip threshold repeated (score, signals)).0
      ≡ weigh (add_repeat ip threshold repeated (score, signals)).1
unfolding add_repeat
add_repeat-weigh ip threshold true score signals h =
    rw (weigh-append signals) (unfold weigh in omega arith)
add_repeat-weigh ip threshold false score signals h = h

content-IsExplained :
    (p : Platform) (input : Input) (threshold : ℕ) (repeated : Bool)
    → (1 ≤ threshold) × (threshold ≤ 20)
    → IsExplained (decide_content p input threshold repeated)
unfolding decide_content
content-IsExplained p input threshold repeated h = record {
  sums =
      add_repeat-weigh input.ip threshold repeated _ _
        (detail_with-weigh p input.fields (keywords input.rules));
  decides = refl;
  bounds = h;
}

allowed-IsExplained :
    (threshold : ℕ) (r : Rule)
    → (1 ≤ threshold) × (threshold ≤ 20)
    → IsExplained (allowed threshold r)
unfolding allowed weigh
allowed-IsExplained threshold r h = record { sums = refl; decides = ground arith; bounds = h }

blocked-IsExplained :
    (threshold : ℕ) (r : Rule)
    → (1 ≤ threshold) × (threshold ≤ 20)
    → IsExplained (blocked_by threshold r)
unfolding blocked_by weigh
blocked-IsExplained threshold r h = record {
  sums = omega arith;
  decides = ground arith;
  bounds = h;
}

by-IsExplained :
    (p : Platform) (input : Input) (threshold : ℕ) (repeated : Bool) (o : Option Rule)
    → (1 ≤ threshold) × (threshold ≤ 20)
    → IsExplained (decide_by p input threshold repeated o)
unfolding decide_by
by-IsExplained p input threshold repeated none h = content-IsExplained p input threshold repeated h
by-IsExplained p input threshold repeated (some r) h = elim (Bool-cases (r.kind == kind_allow)) [
  | inl e ↦ rw e (allowed-IsExplained threshold r h)
  | inr e ↦ elim (Bool-cases (r.kind == kind_block)) [
    | inl e' ↦ rw (e, e') (blocked-IsExplained threshold r h)
    | inr e' ↦ rw (e, e') (content-IsExplained p input threshold repeated h)
  ]
]

-- Every verdict explains itself: its signals add up to its score, it holds the submission exactly if
-- the score reaches the threshold, and the threshold lies in 1..20, whatever was configured.
pub decide_repeated-IsExplained :
    (p : Platform) (input : Input) (repeated : Bool)
    → IsExplained (decide_repeated p input repeated)
unfolding decide_repeated
decide_repeated-IsExplained p input repeated =
    by-IsExplained p input (clamp_threshold input.threshold) repeated _
      (clamp_threshold_bounds input.threshold)

-- What is decided, by what the rules say.
abbrev pub Outcome : Platform → Input → Bool → Verdict → Option Rule → Type 0
Outcome p input repeated v none =
    (v.hold
      ≡ leb (clamp_threshold input.threshold) (
          (detail_with p input.fields (keywords input.rules)).0
          + (if repeated then clamp_threshold input.threshold else 0)))
    × (v.is_matched ≡ false)
Outcome p input repeated v (some r) =
    (v.hold ≡ not (r.kind == kind_allow)) × (v.is_matched ≡ true) × (v.matched_rule_id ≡ r.id)

score-add_repeat :
    (ip : Text) (threshold : ℕ) (repeated : Bool) (found : ℕ × List Signal)
    → (add_repeat ip threshold repeated found).0 ≡ found.0 + (if repeated then threshold else 0)
unfolding add_repeat
score-add_repeat ip threshold true found = refl
score-add_repeat ip threshold false found = omega arith

block-ne-allow : (kind_block == kind_allow) ≡ false
unfolding ◌==◌
block-ne-allow = refl

by-Outcome :
    (p : Platform) (input : Input) (repeated : Bool) (o : Option Rule)
    → ((r : Rule) → o ≡ some r → (r.kind ≡ kind_allow) ⊎ (r.kind ≡ kind_block))
    → Outcome p input repeated (decide_by p input (clamp_threshold input.threshold) repeated o) o
unfolding decide_by decide_content scored allowed blocked_by
by-Outcome p input repeated none h = (
  ap (λ n. leb (clamp_threshold input.threshold) n) (score-add_repeat input.ip _ repeated _),
  refl,
)
by-Outcome p input repeated (some r) h = elim (h r refl) [
  | inl e ↦ rw (eq_complete r.kind kind_allow e) (refl, refl, refl)
  | inr e ↦
      rw (ap (λ k. k == kind_allow) e ∙ block-ne-allow, eq_complete r.kind kind_block e)
        (refl, refl, refl)
]

kind-match :
    (p : Platform) (rules : List Rule) (fs : List (Text × Text)) (ip : Text) (r : Rule)
    → match p rules fs ip ≡ some r
    → (r.kind ≡ kind_allow) ⊎ (r.kind ≡ kind_block)
kind-match p rules fs ip r h = elim ((match-Decides p rules fs ip).0 r h).1 [
  | by_allow e ↦ inl (eq_sound r.kind kind_allow (applies-inv p kind_allow _ ip r e).0)
  | by_block quiet e ↦ inr (eq_sound r.kind kind_block (applies-inv p kind_block _ ip r e).0)
]

-- A submission that an allow rule decides is never held, and one that a block rule decides always is,
-- whatever its content and however often it came. One that no rule decides is held exactly if its
-- content score, with a full threshold on top for a repeated sender, reaches the threshold.
pub decide_repeated-Outcome :
    (p : Platform) (input : Input) (repeated : Bool)
    → Outcome p input repeated
        (decide_repeated p input repeated)
        (match p input.rules input.fields input.ip)
unfolding decide_repeated
decide_repeated-Outcome p input repeated =
    by-Outcome p input repeated (match p input.rules input.fields input.ip)
      (kind-match p input.rules input.fields input.ip)

-- From a valid tracker the decision is made without a panic, and the tracker stays valid. The verdict
-- is that of `decide_repeated` on the tracker's answer.
pub decide-total :
    (p : Platform) (t : Tracker) (input : Input)
    → IsValid t
    → (u : Tracker) × (b : Bool) × (seen t input.form_id input.ip ≡ some (u, b))
      × IsValid u
      × (decide p t input ≡ some (u, decide_repeated p input b))
unfolding decide
decide-total p t input v =
    let (u, b, e, valid, same) = seen-IsValid t input.form_id input.ip v in
    (u, b, e, valid, rw (e, decide))
