-- ===== src/Store/Quarantine/Deletion.antt =====
-- internal/store/quarantine.go: deleting by ids, and clearing all or nothing.
use dsforms.Common.{
  ℕ, zero, suc, ◌+◌, ◌*◌, ◌<◌, ◌=ℕ◌, leb, length, take, keep, any, count, length-keep-not,
  keep-cong, Text, ◌==◌, mem, ◌≡◌, refl, ap, subst, ◌≢◌, Bool, true, false, ◌&&◌, ◌||◌, not, none,
  some, List, [], ◌∷◌, ◌++◌, arith,
}
use dsforms.Store.FormScope.{FormScope, allows, all_forms}
use dsforms.Store.Quarantine.{
  purge_held_older_than, quarantined_since, Db, Submission, HeldFilter, done, failed,
  count_mismatch, cascade, in_batch, delete_held, clear_held, delete_held_where, count_held,
  where_held,
}
use dsforms.Store.Quarantine.Batches.{Removes, delete_held-Removes}

-- A held submission with one of these ids, of a form in the scope.
abbrev pub is_asked_for : List Text → FormScope → Submission → Bool
is_asked_for ids forms s = s.is_held && mem s.id ids && allows forms s.form_id

-- What a deletion by ids leaves, told without the code's own steps.
pub record IsErased (breaks : ℕ → Bool) (forms : FormScope) (db : Db) (ids : List Text)
    (out : Db × ℕ × Bool) : Type 0 where
  pub batches : ℕ
  pub dealt : List Text
  pub left : List Text
  pub split : ids ≡ dealt ++ left
  pub rows : out.0.submissions ≡ keep (λ s. not (is_asked_for dealt forms s)) db.submissions
  pub signals :
      out.0.signals
      ≡ keep
          (λ r. not (any (λ s. (s.id == r.0) && is_asked_for dealt forms s) db.submissions))
          db.signals
  pub total : length out.0.submissions + out.1 ≡ length db.submissions
  pub all_dealt : out.2 ≡ true → left ≡ []
  pub whole : dealt ≡ take (batches * 500) ids
  pub ran : (m : ℕ) → m < batches → breaks m ≡ false
  pub stopped : out.2 ≡ false → breaks batches ≡ true

removed-IsErased :
    (breaks : ℕ → Bool) (forms : FormScope) (db : Db) (ids : List Text) (out : Db × ℕ × Bool)
    → Removes breaks 0 forms db ids out
    → IsErased breaks forms db ids out
unfolding cascade in_batch
removed-IsErased breaks forms db ids out r = record {
  batches = r.batches;
  whole = r.whole;
  ran = λ m h. subst (λ k. breaks k ≡ false) (omega arith) (r.ran m h);
  stopped = λ h. subst (λ k. breaks k ≡ true) (omega arith) (r.stopped h);
  dealt = r.dealt;
  left = r.left;
  split = r.split;
  rows = ap (λ d. d.submissions) r.tables;
  signals = ap (λ d. d.signals) r.tables;
  total = omega (
    arith,
    r.total,
    ap (λ d. length d.submissions) r.tables,
    length-keep-not (in_batch r.dealt forms) db.submissions,
  );
  all_dealt = r.all_dealt;
}

-- Deleting by ids, in batches of 500, always comes to an end, whichever statements fail. The ids that
-- were dealt with are those of the batches before the first one that fails, and all of them if none
-- fails; an error is reported exactly when a batch failed. What is gone are the held
-- submissions with one of these ids in a form of the scope, with their signals, and nothing else.
-- The number reported is the number of submissions gone, after a failure too.
pub delete_held-IsErased :
    (breaks : ℕ → Bool) (forms : FormScope) (db : Db) (ids : List Text)
    → (out : Db × ℕ × Bool) × (delete_held breaks forms db ids ≡ some out)
      × IsErased breaks forms db ids out
delete_held-IsErased breaks forms db ids =
    let (out, run, r) = delete_held-Removes breaks forms db ids in
    (out, run, removed-IsErased breaks forms db ids out r)

keep-untouched :
    {A : Type 0} (p q : A → Bool) (xs : List A)
    → ((x : A) → q x ≡ true → p x ≡ false)
    → keep q (keep (λ x. not (p x)) xs) ≡ keep q xs
keep-untouched p q [] h = refl
keep-untouched p q (x ∷ xs) h = ground (arith, h x, keep-untouched p q xs h)

count-keep-same : {A : Type 0} (p : A → Bool) (xs : List A) → count p (keep (λ x. not (p x)) xs) ≡ 0
count-keep-same p [] = refl
count-keep-same p (x ∷ xs) = ground (arith, count-keep-same p xs)

-- Clearing changes nothing unless the number of matching submissions is the expected one. Then that
-- number of submissions goes and is reported, and none that matches is left. Accepted submissions
-- stay, and so do those of forms outside the scope, in their order.
pub clear_held-all :
    (db : Db) (f : HeldFilter) (expected : ℕ)
    → (count_held db f ≢ expected
        → clear_held db f expected ≡ (db, failed (count_mismatch expected (count_held db f))))
      × (count_held db f ≡ expected
          → (clear_held db f expected ≡ (cascade (where_held f) db, done expected))
            × (count_held (cascade (where_held f) db) f ≡ 0)
            × (length (cascade (where_held f) db).submissions + expected ≡ length db.submissions)
            × (keep (λ s. not s.is_held) (cascade (where_held f) db).submissions
                ≡ keep (λ s. not s.is_held) db.submissions)
            × (keep (λ s. not (allows f.forms s.form_id)) (cascade (where_held f) db).submissions
                ≡ keep (λ s. not (allows f.forms s.form_id)) db.submissions))
unfolding clear_held delete_held_where count_held cascade where_held
clear_held-all db f expected = (
  λ h. ground (arith, h),
  λ h. (
    ground (arith, h),
    count-keep-same (where_held f) db.submissions,
    omega (arith, h, length-keep-not (where_held f) db.submissions),
    keep-untouched (where_held f) (λ s. not s.is_held) db.submissions (λ s e. ground arith),
    keep-untouched (where_held f) (λ s. not (allows f.forms s.form_id)) db.submissions
        (λ s e. ground arith),
  ),
)

-- When a held row's time in quarantine started.
abbrev pub started : Submission → ℕ
started s = elim s.held_at [ none ↦ s.created_at | some t ↦ t ]

-- The retention sweep with a cutoff takes the held submissions that entered the quarantine before it,
-- where a missing time counts as the time of arrival, and no other row; the rest keeps its order. With
-- the zero time as cutoff there is no bound, and every held submission goes. The number reported is
-- the number of submissions gone.
pub purge_held_older_than_sound :
    (db : Db) (cutoff : ℕ)
    → ((purge_held_older_than db cutoff).0.submissions
        ≡ keep
            (λ s. not s.is_held || ((not (cutoff =ℕ 0)) && leb cutoff (started s)))
            db.submissions)
      × (length (purge_held_older_than db cutoff).0.submissions
            + (purge_held_older_than db cutoff).1
          ≡ length db.submissions)
unfolding purge_held_older_than delete_held_where cascade where_held quarantined_since all_forms
    allows
purge_held_older_than_sound db zero =
    let test =
      where_held (record { forms = record { all = true; ids = [] }; held_before = none }) in
    (keep-cong _ _ db.submissions (λ s. ground arith), length-keep-not test db.submissions)
purge_held_older_than_sound db (suc t) =
    let test =
      where_held (record { forms = record { all = true; ids = [] }; held_before = some (suc t) }) in
    (keep-cong _ _ db.submissions (λ s. ground arith), length-keep-not test db.submissions)
