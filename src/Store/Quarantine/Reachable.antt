-- ===== src/Store/Quarantine/Reachable.antt =====
-- internal/store/quarantine.go: the tables after any sequence of operations.
use dsforms.Common.{
  ℕ, ◌=ℕ◌, =ℕ_iff, Bool-cases, all, any-append, Text, eq_refl, eq_iff, ◌==◌, mem, ◌≡◌, refl, sym,
  ap, ◌∙◌, subst, inl, inr, Bool, true, false, ◌||◌, not, Option, none, some, List, [], ◌∷◌, ◌++◌,
  arith,
}
use dsforms.Handler.Submit.{create_submission, inbox_row}
use dsforms.Store.FormScope.{FormScope, all_forms}
use dsforms.Store.Quarantine.{
  Db, Submission, SpamSignal, HeldFilter, restore_submission, mark_spam, mark_notified,
  create_held_submission, held_row, attach, clear_held, delete_held, purge_held_older_than,
  delete_all_held, cutoff_of, delete_held_where, where_held, in_batch, count_held,
}
use dsforms.Store.Quarantine.Deletion.{clear_held-all}
use dsforms.Store.Quarantine.Batches.{delete_held-Removes}
use dsforms.Store.Quarantine.Wellformed.{
  IsWf, IsDistinct, has_row, all-append, with_signals, keyed-IsDistinct, distinct-IsKeyed, is_dated,
  cascade-IsWf, restore_submission-IsWf, mark_spam-IsWf, mark_notified-IsWf,
}

has_row-append :
    (a b : List Submission) (id : Text) → has_row (a ++ b) id ≡ (has_row a id || has_row b id)
has_row-append a b id = any-append (λ s. s.id == id) a b

add-IsDistinct :
    (subs : List Submission) (s : Submission)
    → IsDistinct subs
    → has_row subs s.id ≡ false
    → IsDistinct (subs ++ s ∷ [])
add-IsDistinct [] s h fresh = (refl, tt)
add-IsDistinct (t ∷ subs) s h fresh = (
  has_row-append subs (s ∷ []) t.id
      ∙ ground (arith, h.0, fresh, eq_iff t.id s.id, eq_iff s.id t.id),
  add-IsDistinct subs s h.1 (ground arith),
)

attach_owned :
    (subs : List Submission) (id : Text) (signals : List SpamSignal)
    → has_row subs id ≡ true
    → all (λ r. has_row subs r.0) (attach id signals) ≡ true
unfolding attach
attach_owned subs id [] h = refl
attach_owned subs id (g ∷ signals) h = ground (arith, h, attach_owned subs id signals h)

grown :
    (subs : List Submission) (s : Submission) (rs : List (Text × SpamSignal))
    → all (λ r. has_row subs r.0) rs ≡ true
    → all (λ r. has_row (subs ++ s ∷ []) r.0) rs ≡ true
grown subs s [] h = refl
grown subs s (r ∷ rs) h = ground (arith, grown subs s rs, has_row-append subs (s ∷ []) r.0)

add-IsWf :
    (db : Db) (s : Submission)
    → IsWf db
    → has_row db.submissions s.id ≡ false
    → is_dated s ≡ true
    → IsWf (record db { submissions = db.submissions ++ s ∷ [] })
add-IsWf db s wf fresh dated = record {
  keyed = distinct-IsKeyed _ (add-IsDistinct db.submissions s (keyed-IsDistinct _ wf.keyed) fresh);
  dated = all-append is_dated db.submissions (s ∷ []) ∙ ground (arith, wf.dated, dated);
  owned = grown db.submissions s db.signals wf.owned;
}

create_held_submission-IsWf :
    (db : Db) (marshalled : Text) (now : ℕ) (sub : Submission) (score threshold : ℕ)
    (signals : List SpamSignal)
    → IsWf db
    → IsWf (create_held_submission db marshalled now sub score threshold signals).0
unfolding create_held_submission held_row mem
create_held_submission-IsWf db marshalled now sub score threshold signals wf =
    elim (Bool-cases (has_row db.submissions sub.id || not (mem sub.form_id db.forms))) [
      | inl e ↦ rw e wf
      | inr e ↦
          let row = held_row marshalled sub now score threshold in
          let fresh : has_row db.submissions sub.id ≡ false = ground arith in
          rw e (
            with_signals (record db { submissions = db.submissions ++ row ∷ [] })
              (attach sub.id signals) (add-IsWf db row wf fresh refl)
              (attach_owned (db.submissions ++ row ∷ []) sub.id signals
                (has_row-append db.submissions (row ∷ []) sub.id ∙ ground (arith, eq_refl sub.id))))
    ]

create_submission-IsWf :
    (db : Db) (now : ℕ) (sub : Submission) → IsWf db → IsWf (create_submission db now sub).0
unfolding create_submission inbox_row mem
create_submission-IsWf db now sub wf =
    elim (Bool-cases (has_row db.submissions sub.id || not (mem sub.form_id db.forms))) [
      | inl e ↦ rw e wf
      | inr e ↦ rw e (add-IsWf db (inbox_row now sub) wf (ground arith) refl)
    ]

-- One operation on the tables, with its arguments: every statement of the store that writes submissions
-- or signals and is modelled.
pub data Op : Type 0 where
  accept : ℕ → Submission → Op
  create : Text → ℕ → Submission → ℕ → ℕ → List SpamSignal → Op
  restore : Text → Op
  mark : ℕ → Text → Text → Op
  notify : Text → Op
  clear : HeldFilter → ℕ → Op
  clear_all : Op
  purge : ℕ → Op
  erase : (ℕ → Bool) → FormScope → List Text → Op

abbrev pub left_by : Db → Option (Db × ℕ × Bool) → Db
left_by db none = db
left_by db (some out) = out.0

unfoldable pub run : Op → Db → Db
unfolding create_submission create_held_submission restore_submission mark_spam mark_notified
    clear_held delete_all_held purge_held_older_than delete_held
run (create marshalled now sub score threshold signals) db =
    (create_held_submission db marshalled now sub score threshold signals).0
run (accept now sub) db = (create_submission db now sub).0
run clear_all db = (delete_all_held db).0
run (restore id) db = (restore_submission db id).0
run (mark now id actor) db = (mark_spam db now id actor).0
run (notify id) db = mark_notified db id
run (clear f expected) db = (clear_held db f expected).0
run (purge cutoff) db = (purge_held_older_than db cutoff).0
run (erase breaks forms ids) db = left_by db (delete_held breaks forms db ids)

-- The newest operation comes first.
unfoldable pub after : List Op → Db → Db
unfolding run
after [] db = db
after (op ∷ ops) db = run op (after ops db)

clear_held-IsWf :
    (db : Db) (f : HeldFilter) (expected : ℕ) → IsWf db → IsWf (clear_held db f expected).0
unfolding clear_held delete_held_where
clear_held-IsWf db f expected wf = elim (Bool-cases (count_held db f =ℕ expected)) [
  | inl e ↦
      subst IsWf
        (sym (
          ap (λ r. r.0)
            ((clear_held-all db f expected).1 ((=ℕ_iff (count_held db f) expected).0 e)).0))
        (cascade-IsWf (where_held f) db wf)
  | inr e ↦ rw e wf
]

erase-IsWf :
    (breaks : ℕ → Bool) (forms : FormScope) (db : Db) (ids : List Text)
    → IsWf db
    → IsWf (left_by db (delete_held breaks forms db ids))
erase-IsWf breaks forms db ids wf =
    let (out, run, r) = delete_held-Removes breaks forms db ids in
    subst (λ o. IsWf (left_by db o)) (sym run)
      (subst IsWf (sym r.tables) (cascade-IsWf (in_batch r.dealt forms) db wf))

-- Every operation keeps the tables well formed, and so does every sequence of operations: ids stay
-- unique, a submission has a time of being held exactly while it is held, and no signal outlives its
-- submission.
pub after-IsWf : (ops : List Op) (db : Db) → IsWf db → IsWf (after ops db)
unfolding after run purge_held_older_than delete_all_held delete_held_where
after-IsWf [] db wf = wf
after-IsWf (create marshalled now sub score threshold signals ∷ ops) db wf =
    create_held_submission-IsWf (after ops db) marshalled now sub score threshold signals
      (after-IsWf ops db wf)
after-IsWf (accept now sub ∷ ops) db wf =
    create_submission-IsWf (after ops db) now sub (after-IsWf ops db wf)
after-IsWf (clear_all ∷ ops) db wf =
    cascade-IsWf (where_held (record { forms = all_forms; held_before = none })) (after ops db)
      (after-IsWf ops db wf)
after-IsWf (restore id ∷ ops) db wf =
    restore_submission-IsWf (after ops db) id (after-IsWf ops db wf)
after-IsWf (mark now id actor ∷ ops) db wf =
    mark_spam-IsWf (after ops db) now id actor (after-IsWf ops db wf)
after-IsWf (notify id ∷ ops) db wf = mark_notified-IsWf (after ops db) id (after-IsWf ops db wf)
after-IsWf (clear f expected ∷ ops) db wf =
    clear_held-IsWf (after ops db) f expected (after-IsWf ops db wf)
after-IsWf (purge cutoff ∷ ops) db wf =
    cascade-IsWf (where_held (record { forms = all_forms; held_before = cutoff_of cutoff }))
      (after ops db) (after-IsWf ops db wf)
after-IsWf (erase breaks forms ids ∷ ops) db wf =
    erase-IsWf breaks forms (after ops db) ids (after-IsWf ops db wf)
