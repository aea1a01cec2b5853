-- ===== src/Store/Quarantine/Wellformed.antt =====
-- internal/store/quarantine.go: what every statement on the quarantine keeps.
use dsforms.Common.{
  ℕ, if◌then◌else◌, Bool-cases, and-eq-true, keep, any, all, first, Text, ◌==◌, ◌≡◌, refl, ap, ◌∙◌,
  ◌↔◌, inl, inr, Bool, true, false, ◌&&◌, ◌||◌, not, Option, none, some, List, [], ◌∷◌, ◌++◌, arith,
}
use dsforms.Store.Quarantine.{
  Db, Submission, SpamSignal, find, update, is_held_row, is_accepted_row, released, withdrawn,
  restore_submission, mark_spam, mark_notified, marked_by, restored_by, cascade, by_hand,
}
use dsforms.Store.Quarantine.Lifecycle.{IsKeyed}

-- A row has a time of being held exactly if it is held.
abbrev pub is_dated : Submission → Bool
is_dated s = elim s.held_at [ none ↦ not s.is_held | some t ↦ s.is_held ]

abbrev pub has_row : List Submission → Text → Bool
has_row subs id = any (λ s. s.id == id) subs

-- Unique ids, a time for the held rows and only for them, and no signal without its submission.
pub record IsWf (db : Db) : Type 0 where
  pub keyed : IsKeyed db.submissions
  pub dated : all is_dated db.submissions ≡ true
  pub owned : all (λ r. has_row db.submissions r.0) db.signals ≡ true

module _ (test : Submission → Bool) (change : Submission → Submission)
    (same : (s : Submission) → (change s).id ≡ s.id) where
  changed_id : (s : Submission) → (if test s then change s else s).id ≡ s.id
  changed_id s = elim (Bool-cases (test s)) [
    | inl e ↦ ap (λ b. (if b then change s else s).id) e ∙ same s
    | inr e ↦ ap (λ b. (if b then change s else s).id) e
  ]

  has_row-update :
      (subs : List Submission) (id : Text) → has_row (update test change subs) id ≡ has_row subs id
  unfolding update
  has_row-update [] id = refl
  has_row-update (s ∷ subs) id =
      ap (λ t. (t == id) || has_row (update test change subs) id) (changed_id s)
      ∙ ap (λ b. (s.id == id) || b) (has_row-update subs id)

find-has_row :
    (id : Text) (subs : List Submission) → (find id subs ≡ none) ↔ (has_row subs id ≡ false)
unfolding find
find-has_row id [] = (λ h. refl, λ h. refl)
find-has_row id (s ∷ subs) = ground (arith, find-has_row id subs)

-- The same, with the test in place of the search.
abbrev pub IsDistinct : List Submission → Type 0
IsDistinct [] = Unit
IsDistinct (s ∷ subs) = (has_row subs s.id ≡ false) × IsDistinct subs

pub keyed-IsDistinct : (subs : List Submission) → IsKeyed subs → IsDistinct subs
keyed-IsDistinct [] h = tt
keyed-IsDistinct (s ∷ subs) h = ((find-has_row s.id subs).0 h.0, keyed-IsDistinct subs h.1)

pub distinct-IsKeyed : (subs : List Submission) → IsDistinct subs → IsKeyed subs
distinct-IsKeyed [] h = tt
distinct-IsKeyed (s ∷ subs) h = ((find-has_row s.id subs).1 h.0, distinct-IsKeyed subs h.1)

module _ (test : Submission → Bool) (change : Submission → Submission)
    (same : (s : Submission) → (change s).id ≡ s.id) where
  update-IsDistinct :
      (subs : List Submission) → IsDistinct subs → IsDistinct (update test change subs)
  unfolding update
  update-IsDistinct [] h = tt
  update-IsDistinct (s ∷ subs) h = (
    has_row-update test change same subs _
        ∙ ap (has_row subs) (changed_id test change same s)
        ∙ h.0,
    update-IsDistinct subs h.1,
  )

  changed_dated :
      ((s : Submission) → is_dated s ≡ true → is_dated (change s) ≡ true)
      → (b : Bool) (s : Submission) → is_dated s ≡ true
      → is_dated (if b then change s else s) ≡ true
  changed_dated keeps true s h = keeps s h
  changed_dated keeps false s h = h

  update_dated :
      ((s : Submission) → is_dated s ≡ true → is_dated (change s) ≡ true)
      → (subs : List Submission) → all is_dated subs ≡ true
      → all is_dated (update test change subs) ≡ true
  unfolding update
  update_dated keeps [] h = refl
  update_dated keeps (s ∷ subs) h =
      let (now, later) = and-eq-true (is_dated s) (all is_dated subs) h in
      ap (λ b. b && all is_dated (update test change subs)) (changed_dated keeps (test s) s now)
      ∙ update_dated keeps subs later

has_row-keep :
    (p : Submission → Bool) (subs : List Submission) (id : Text)
    → has_row subs id ≡ false
    → has_row (keep p subs) id ≡ false
has_row-keep p [] id h = refl
has_row-keep p (s ∷ subs) id h = ground (arith, has_row-keep p subs id)

keep-IsDistinct :
    (p : Submission → Bool) (subs : List Submission) → IsDistinct subs → IsDistinct (keep p subs)
keep-IsDistinct p [] h = tt
keep-IsDistinct p (s ∷ subs) h =
    ground (arith, keep-IsDistinct p subs h.1, has_row-keep p subs s.id h.0)

all-keep : {A : Type 0} (q p : A → Bool) (xs : List A) → all q xs ≡ true → all q (keep p xs) ≡ true
all-keep q p [] h = refl
all-keep q p (x ∷ xs) h = ground (arith, all-keep q p xs)

-- A signal of a row that stays keeps its row.
has_row-stays :
    (test : Submission → Bool) (subs : List Submission) (id : Text)
    → has_row subs id ≡ true
    → any (λ s. (s.id == id) && test s) subs ≡ false
    → has_row (keep (λ s. not (test s)) subs) id ≡ true
has_row-stays test [] id h k = h
has_row-stays test (s ∷ subs) id h k = ground (arith, has_row-stays test subs id)

owned-stays :
    (test : Submission → Bool) (subs : List Submission) (rs : List (Text × SpamSignal))
    → all (λ r. has_row subs r.0) rs ≡ true
    → all
        (λ r. has_row (keep (λ s. not (test s)) subs) r.0)
        (keep (λ r. not (any (λ s. (s.id == r.0) && test s) subs)) rs)
      ≡ true
owned-stays test subs [] h = refl
owned-stays test subs (r ∷ rs) h =
    ground (arith, owned-stays test subs rs, has_row-stays test subs r.0)

-- Deleting rows with their signals keeps the tables well formed, whichever rows go.
pub cascade-IsWf : (test : Submission → Bool) (db : Db) → IsWf db → IsWf (cascade test db)
unfolding cascade
cascade-IsWf test db wf = record {
  keyed =
      distinct-IsKeyed _
        (keep-IsDistinct (λ s. not (test s)) db.submissions (keyed-IsDistinct _ wf.keyed));
  dated = all-keep is_dated (λ s. not (test s)) db.submissions wf.dated;
  owned = owned-stays test db.submissions db.signals wf.owned;
}

all-cong : {A : Type 0} (p q : A → Bool) (xs : List A) → ((x : A) → p x ≡ q x) → all p xs ≡ all q xs
all-cong p q [] h = refl
all-cong p q (x ∷ xs) h = ground (arith, h x, all-cong p q xs h)

pub all-append :
    {A : Type 0} (p : A → Bool) (xs ys : List A) → all p (xs ++ ys) ≡ (all p xs && all p ys)
all-append p [] ys = refl
all-append p (x ∷ xs) ys = ground (arith, all-append p xs ys)

-- A change of rows that keeps ids and dates keeps the tables well formed.
update-IsWf :
    (test : Submission → Bool) (change : Submission → Submission) (db : Db)
    → ((s : Submission) → (change s).id ≡ s.id)
    → ((s : Submission) → is_dated s ≡ true → is_dated (change s) ≡ true)
    → IsWf db
    → IsWf (record db { submissions = update test change db.submissions })
update-IsWf test change db same keeps wf = record {
  keyed =
      distinct-IsKeyed _
        (update-IsDistinct test change same db.submissions (keyed-IsDistinct _ wf.keyed));
  dated = update_dated test change same keeps db.submissions wf.dated;
  owned =
      all-cong _ _ db.signals (λ r. has_row-update test change same db.submissions r.0) ∙ wf.owned;
}

restored_by-IsWf :
    (db : Db) (id : Text) (o : Option Submission) → IsWf db → IsWf (restored_by db id o).0
unfolding restored_by released
restored_by-IsWf db id none wf = wf
restored_by-IsWf db id (some s) wf =
    update-IsWf (is_held_row id) released db (λ s. refl) (λ s h. refl) wf

pub restore_submission-IsWf : (db : Db) (id : Text) → IsWf db → IsWf (restore_submission db id).0
unfolding restore_submission
restore_submission-IsWf db id wf = restored_by-IsWf db id (first (is_held_row id) db.submissions) wf

pub mark_notified-IsWf : (db : Db) (id : Text) → IsWf db → IsWf (mark_notified db id)
unfolding mark_notified
mark_notified-IsWf db id wf = update-IsWf _ _ db (λ s. refl) (λ s h. h) wf

accepted-has_row :
    (id : Text) (subs : List Submission) (s : Submission)
    → first (is_accepted_row id) subs ≡ some s
    → has_row subs id ≡ true
unfolding is_accepted_row
accepted-has_row id [] s h = ground arith
accepted-has_row id (t ∷ subs) s h = ground (arith, accepted-has_row id subs s)

pub with_signals :
    (db : Db) (more : List (Text × SpamSignal))
    → IsWf db
    → all (λ r. has_row db.submissions r.0) more ≡ true
    → IsWf (record db { signals = db.signals ++ more })
with_signals db more wf h = record {
  keyed = wf.keyed;
  dated = wf.dated;
  owned = all-append _ db.signals more ∙ ground (arith, wf.owned, h);
}

marked_by-IsWf :
    (db : Db) (now : ℕ) (id actor : Text) (o : Option Submission)
    → first (is_accepted_row id) db.submissions ≡ o
    → IsWf db
    → IsWf (marked_by db now id actor o).0
unfolding marked_by withdrawn
marked_by-IsWf db now id actor none e wf = wf
marked_by-IsWf db now id actor (some s) e wf =
    with_signals
      (record db { submissions = update (is_accepted_row id) (withdrawn now) db.submissions })
      ((id, by_hand actor) ∷ [])
      (update-IsWf (is_accepted_row id) (withdrawn now) db (λ s. refl) (λ s h. refl) wf)
      (ap (λ b. b && true)
        (has_row-update (is_accepted_row id) (withdrawn now) (λ s. refl) db.submissions id
          ∙ accepted-has_row id db.submissions s e))

pub mark_spam-IsWf :
    (db : Db) (now : ℕ) (id actor : Text) → IsWf db → IsWf (mark_spam db now id actor).0
unfolding mark_spam
mark_spam-IsWf db now id actor wf = marked_by-IsWf db now id actor _ refl wf
