-- ===== src/Store/Quarantine/Batches.antt =====
-- internal/store/quarantine.go: one batch after another is one deletion of all their ids.
use dsforms.Common.{
  ℕ, zero, suc, ◌+◌, ◌*◌, ◌≤◌, ◌<◌, Bool-cases, length, take, drop, take-append-drop, keep, any,
  count, keep-keep, keep-cong, Text, ◌==◌, mem, ◌≡◌, refl, sym, ap, ◌∙◌, subst, inl, inr, Bool,
  true, false, ◌&&◌, ◌||◌, not, Option, some, List, [], ◌∷◌, ◌++◌, arith,
}
use dsforms.Store.FormScope.{FormScope}
use dsforms.Store.Quarantine.{
  delete_held, delete_held_from, Db, Submission, SpamSignal, cascade, in_batch,
}

module _ {ℓ} {A : Type ℓ} where
  count-keep-not :
      (p q : A → Bool) (xs : List A)
      → count p xs + count q (keep (λ x. not (p x)) xs) ≡ count (λ x. p x || q x) xs
  count-keep-not p q [] = refl
  count-keep-not p q (x ∷ xs) = ground (arith, count-keep-not p q xs)

  any-keep-not :
      (r p q : A → Bool) (xs : List A)
      → (any (λ x. r x && p x) xs || any (λ x. r x && q x) (keep (λ x. not (p x)) xs))
        ≡ any (λ x. r x && (p x || q x)) xs
  any-keep-not r p q [] = refl
  any-keep-not r p q (x ∷ xs) = ground (arith, any-keep-not r p q xs)

  count-cong : (p q : A → Bool) (xs : List A) → ((x : A) → p x ≡ q x) → count p xs ≡ count q xs
  count-cong p q [] h = refl
  count-cong p q (x ∷ xs) h = ground (arith, h x, count-cong p q xs h)

  any-cong : (p q : A → Bool) (xs : List A) → ((x : A) → p x ≡ q x) → any p xs ≡ any q xs
  any-cong p q [] h = refl
  any-cong p q (x ∷ xs) h = ground (arith, h x, any-cong p q xs h)

mem-append : (x : Text) (a b : List Text) → mem x (a ++ b) ≡ (mem x a || mem x b)
unfolding mem
mem-append x [] b = refl
mem-append x (y ∷ a) b = ground (arith, mem-append x a b)

db_cong :
    (fs : List Text) (a b : List Submission) (s t : List (Text × SpamSignal))
    → a ≡ b
    → s ≡ t
    → ◌≡◌ {A = Db}
        (record { forms = fs; submissions = a; signals = s })
        (record { forms = fs; submissions = b; signals = t })
db_cong fs a b s t e f = cc

-- A signal that stays when the rows of a test go.
abbrev orphan : (Submission → Bool) → List Submission → Text × SpamSignal → Bool
orphan test subs r = not (any (λ s. (s.id == r.0) && test s) subs)

cascade-cascade :
    (p q : Submission → Bool) (db : Db) → cascade q (cascade p db) ≡ cascade (λ s. p s || q s) db
unfolding cascade
cascade-cascade p q db =
    db_cong db.forms _ _ _ _
      (keep-keep (λ s. not (q s)) (λ s. not (p s)) db.submissions
        ∙ keep-cong _ _ db.submissions (λ s. ground arith))
      (keep-keep (orphan q (keep (λ s. not (p s)) db.submissions)) (orphan p db.submissions)
          db.signals
        ∙ keep-cong
            (λ r. orphan p db.submissions r && orphan q (keep (λ s. not (p s)) db.submissions) r)
            (orphan (λ s. p s || q s) db.submissions) db.signals
            (λ r. ground (arith, any-keep-not (λ s. s.id == r.0) p q db.submissions)))

cascade-cong :
    (p q : Submission → Bool) (db : Db)
    → ((s : Submission) → p s ≡ q s)
    → cascade p db ≡ cascade q db
unfolding cascade
cascade-cong p q db h =
    db_cong db.forms _ _ _ _ (keep-cong _ _ db.submissions (λ s. ground (arith, h s))) (
      keep-cong _ _ db.signals
        (λ r. ap not (any-cong _ _ db.submissions (λ s. ground (arith, h s)))))

in_batch-append :
    (a b : List Text) (forms : FormScope) (s : Submission)
    → (in_batch a forms s || in_batch b forms s) ≡ in_batch (a ++ b) forms s
unfolding in_batch
in_batch-append a b forms s = ground (arith, mem-append s.id a b)

in_batch-empty : (forms : FormScope) (s : Submission) → in_batch [] forms s ≡ false
unfolding in_batch mem
in_batch-empty forms s = ground arith

-- What a run of `delete_held` leaves: the ids fall in those that were dealt with and those that were
-- not, and the tables and the total are those of one deletion of the first.
pub record Removes (breaks : ℕ → Bool) (n : ℕ) (forms : FormScope) (db : Db) (ids : List Text)
    (out : Db × ℕ × Bool) : Type 0 where
  pub batches : ℕ
  pub dealt : List Text
  pub left : List Text
  pub split : ids ≡ dealt ++ left
  pub tables : out.0 ≡ cascade (in_batch dealt forms) db
  pub total : out.1 ≡ count (in_batch dealt forms) db.submissions
  pub all_dealt : out.2 ≡ true → left ≡ []
  pub whole : dealt ≡ take (batches * 500) ids
  pub ran : (m : ℕ) → m < batches → breaks (n + m) ≡ false
  pub stopped : out.2 ≡ false → breaks (n + batches) ≡ true

zero+ : (b : ℕ) → b ≡ 0 + b
zero+ b = omega arith

suc+ : (a b : ℕ) → suc a + b ≡ suc (a + b)
suc+ a b = omega arith

take-nil : (b : ℕ) → take {A = Text} b [] ≡ []
take-nil zero = refl
take-nil (suc b) = refl

take-add : (a b : ℕ) (xs : List Text) → take a xs ++ take b (drop a xs) ≡ take (a + b) xs
take-add zero b xs = ap (λ n. take n xs) (zero+ b)
take-add (suc a) b [] = rw (suc+ a b) (take-nil b)
take-add (suc a) b (x ∷ xs) = rw (take-add a b xs, suc+ a b) refl

-- The batches that ran before the one that failed, with one more in front.
one_more :
    (breaks : ℕ → Bool) (n k : ℕ)
    → breaks n ≡ false
    → ((m : ℕ) → m < k → breaks (n + 1 + m) ≡ false)
    → (m : ℕ) → m < suc k
    → breaks (n + m) ≡ false
one_more breaks n k e f zero h = ground (arith, e)
one_more breaks n k e f (suc m) h = ground (arith, f m (omega arith))

append_assoc : (a b c : List Text) → a ++ (b ++ c) ≡ (a ++ b) ++ c
append_assoc [] b c = refl
append_assoc (x ∷ a) b c = rw (append_assoc a b c) refl

count-cascade :
    (forms : FormScope) (db : Db) (a b : List Text)
    → count (in_batch a forms) db.submissions
        + count (in_batch b forms) (cascade (in_batch a forms) db).submissions
      ≡ count (in_batch (a ++ b) forms) db.submissions
unfolding cascade
count-cascade forms db a b =
    count-keep-not (in_batch a forms) (in_batch b forms) db.submissions
    ∙ count-cong _ _ db.submissions (in_batch-append a b forms)

-- What remains after one batch, put after that batch.
Removes-step :
    (breaks : ℕ → Bool) (n : ℕ) (forms : FormScope) (db : Db) (ids : List Text)
    (out : Db × ℕ × Bool)
    → breaks n ≡ false
    → Removes breaks (n + 1) forms (cascade (in_batch (take 500 ids) forms) db) (drop 500 ids) out
    → Removes breaks n forms db ids
        (out.0, count (in_batch (take 500 ids) forms) db.submissions + out.1, out.2)
Removes-step breaks n forms db ids out e r =
    let chunk = take 500 ids in
    record {
      batches = suc r.batches;
      whole =
          ap (λ d. chunk ++ d) r.whole
          ∙ take-add 500 (r.batches * 500) ids
          ∙ ap (λ m. take m ids) (omega arith);
      ran = one_more breaks n r.batches e r.ran;
      stopped = λ h. subst (λ m. breaks m ≡ true) (omega arith) (r.stopped h);
      dealt = chunk ++ r.dealt;
      left = r.left;
      split =
          sym (take-append-drop 500 ids)
          ∙ ap (λ d. chunk ++ d) r.split
          ∙ append_assoc chunk r.dealt r.left;
      tables =
          r.tables
          ∙ cascade-cascade (in_batch chunk forms) (in_batch r.dealt forms) db
          ∙ cascade-cong _ _ db (in_batch-append chunk r.dealt forms);
      total = omega (arith, r.total, count-cascade forms db chunk r.dealt);
      all_dealt = r.all_dealt;
    }

keep-true : {A : Type 0} (p : A → Bool) (xs : List A) → ((x : A) → p x ≡ true) → keep p xs ≡ xs
keep-true p [] h = refl
keep-true p (x ∷ xs) h = ground (arith, h x, keep-true p xs h)

count-false : {A : Type 0} (p : A → Bool) (xs : List A) → ((x : A) → p x ≡ false) → count p xs ≡ 0
count-false p [] h = refl
count-false p (x ∷ xs) h = ground (arith, h x, count-false p xs h)

any-false : {A : Type 0} (p : A → Bool) (xs : List A) → ((x : A) → p x ≡ false) → any p xs ≡ false
any-false p [] h = refl
any-false p (x ∷ xs) h = ground (arith, h x, any-false p xs h)

cascade_nothing :
    (test : Submission → Bool) (db : Db)
    → ((s : Submission) → test s ≡ false)
    → cascade test db ≡ db
unfolding cascade
cascade_nothing test db h =
    db_cong db.forms _ _ _ _ (keep-true _ db.submissions (λ s. ground (arith, h s))) (
      keep-true (orphan test db.submissions) db.signals
        (λ r. ap not (any-false _ db.submissions (λ s. ground (arith, h s)))))

Removes-stop :
    (breaks : ℕ → Bool) (n : ℕ) (forms : FormScope) (db : Db) (ids : List Text) (ok : Bool)
    → (ok ≡ true → ids ≡ [])
    → (ok ≡ false → breaks n ≡ true)
    → Removes breaks n forms db ids (db, 0, ok)
Removes-stop breaks n forms db ids ok h broken = record {
  batches = 0;
  whole = refl;
  ran = λ m none. ground arith;
  stopped = λ f. subst (λ m. breaks m ≡ true) (omega arith) (broken f);
  dealt = [];
  left = ids;
  split = refl;
  tables = sym (cascade_nothing _ db (in_batch-empty forms));
  total = sym (count-false _ db.submissions (in_batch-empty forms));
  all_dealt = h;
}

-- A run with a total so far.
abbrev Runs : (ℕ → Bool) → FormScope → ℕ → Db → List Text → ℕ → ℕ → Type 0
Runs breaks forms fuel db ids n total =
    (out : Db × ℕ × Bool) × (delete_held_from fuel breaks forms db ids n total
      ≡ some (out.0, total + out.1, out.2))
    × Removes breaks n forms db ids out

length-drop-le : (n : ℕ) (ids : List Text) → length (drop n ids) ≤ length ids
length-drop-le zero ids = omega arith
length-drop-le (suc n) [] = omega arith
length-drop-le (suc n) (id ∷ ids) = omega (arith, length-drop-le n ids)

with_total :
    (db : Db) (ok : Bool) (t u : ℕ)
    → t ≡ u
    → ◌≡◌ {A = Option (Db × ℕ × Bool)} (some (db, t, ok)) (some (db, u, ok))
with_total db ok t u e = cc

delete_held_from-Runs :
    (breaks : ℕ → Bool) (forms : FormScope) (fuel : ℕ) (db : Db) (ids : List Text) (n total : ℕ)
    → length ids ≤ fuel
    → Runs breaks forms fuel db ids n total
unfolding delete_held_from
delete_held_from-Runs breaks forms fuel db [] n total h = (
  (db, 0, true),
  with_total db true _ _ (omega arith),
  Removes-stop breaks n forms db [] true (λ _. refl) (λ no. ground arith),
)
delete_held_from-Runs breaks forms zero db (id ∷ ids) n total h = ground arith
delete_held_from-Runs breaks forms (suc fuel) db (id ∷ ids) n total h =
    elim (Bool-cases (breaks n)) [
      | inl e ↦ (
        (db, 0, false),
        rw e (with_total db false _ _ (omega arith)),
        Removes-stop breaks n forms db (id ∷ ids) false (λ no. ground arith) (λ _. e),
      )
      | inr e ↦
          let chunk = take 500 (id ∷ ids) in
          let rest = drop 500 (id ∷ ids) in
          let gone = count (in_batch chunk forms) db.submissions in
          let (out, run, r) =
            delete_held_from-Runs breaks forms fuel (cascade (in_batch chunk forms) db) rest (n + 1)
              (total + gone) (omega (arith, h, length-drop-le 499 ids)) in
          (
            (out.0, gone + out.1, out.2),
            rw e (run ∙ with_total out.0 out.2 _ _ (omega arith)),
            Removes-step breaks n forms db (id ∷ ids) out e r,
          )
    ]

pub delete_held-Removes :
    (breaks : ℕ → Bool) (forms : FormScope) (db : Db) (ids : List Text)
    → (out : Db × ℕ × Bool) × (delete_held breaks forms db ids ≡ some out)
      × Removes breaks 0 forms db ids out
unfolding delete_held
delete_held-Removes breaks forms db ids =
    let (out, run, r) = delete_held_from-Runs breaks forms (length ids) db ids 0 0 (omega arith) in
    (out, run ∙ with_total out.0 out.2 _ _ (omega arith), r)
