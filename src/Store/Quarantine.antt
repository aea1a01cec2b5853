-- ===== src/Store/Quarantine.antt =====
-- internal/store/quarantine.go: the submissions that are held for review. The tables `submissions` and
-- `spam_signals` are lists of rows; a statement is a function on them. A failing disk is modelled where
-- the code has something to say about it, in `delete_held`.
pub mod Lifecycle
pub mod Batches
pub mod Deletion
pub mod Wellformed
pub mod Reachable
mod Examples
use dsforms.Common.{
  ℕ, zero, suc, ◌+◌, ◌=ℕ◌, ltb, if◌then◌else◌, length, take, drop, keep, any, first, count, Text,
  ◌==◌, mem, Bool, true, false, ◌&&◌, ◌||◌, not, Option, none, some, List, [], ◌∷◌, ◌++◌,
}
use dsforms.Store.FormScope.{FormScope, all_forms, allows}
use dsforms.Screen.Score.{Check, manual}

-- A time is a number of seconds; `held_at` is `none` for the empty column.
pub record Submission : Type 0 where
  pub id : Text
  pub form_id : Text
  pub raw_data : Text
  pub ip : Text
  pub read : Bool
  pub created_at : ℕ
  pub is_held : Bool
  pub spam_score : ℕ
  pub held_threshold : ℕ
  pub notified : Bool
  pub held_at : Option ℕ

pub record SpamSignal : Type 0 where
  pub check : Check
  pub field : Text
  pub matched : Text
  pub weight : ℕ

pub record Db : Type 0 where
  pub forms : List Text
  pub submissions : List Submission
  pub signals : List (Text × SpamSignal)

pub data Failure : Type 0 where
  gone not_found constraint disk : Failure
  count_mismatch : ℕ → ℕ → Failure

pub data Answer {ℓ} (A : Type ℓ) : Type ℓ where
  done : A → Answer A
  failed : Failure → Answer A

unfoldable pub find : Text → List Submission → Option Submission
find id [] = none
find id (s ∷ subs) = if s.id == id then some s else find id subs

-- `UPDATE submissions SET ... WHERE id = ? AND ...`, for a test on one row.
unfoldable pub update :
    (Submission → Bool) → (Submission → Submission) → List Submission → List Submission
update test change [] = []
update test change (s ∷ subs) = (if test s then change s else s) ∷ update test change subs

-- What a row's deletion leaves of the signals: ON DELETE CASCADE.
unfoldable pub cascade : (Submission → Bool) → Db → Db
cascade test db = record db {
  submissions = keep (λ s. not (test s)) db.submissions;
  signals = keep (λ r. not (any (λ s. (s.id == r.0) && test s) db.submissions)) db.signals;
}

-- `QuarantinedSince` and its SQL.
unfoldable pub quarantined_since : Submission → ℕ
quarantined_since s = elim s.held_at [ none ↦ s.created_at | some t ↦ t ]

-- `classifyMissingHeld` and `classifyMarkSpamMiss`, which return the same two values.
unfoldable pub miss_of : Option Submission → Failure
miss_of none = gone
miss_of (some s) = not_found

unfoldable pub classify_missing_held : Db → Text → Failure
unfolding find miss_of
classify_missing_held db id = miss_of (find id db.submissions)

unfoldable pub attach : Text → List SpamSignal → List (Text × SpamSignal)
attach id [] = []
attach id (sig ∷ signals) = (id, sig) ∷ attach id signals

-- The row that is written, whatever score, threshold and marks the argument carries. `marshalled` is
-- the JSON of the submission's fields, for a submission without its raw text.
unfoldable pub held_row : Text → Submission → ℕ → ℕ → ℕ → Submission
held_row marshalled sub now score threshold =
    let created_at = (if sub.created_at =ℕ 0 then now else sub.created_at) in
    record sub {
      raw_data = (if sub.raw_data == [] then marshalled else sub.raw_data);
      read = false;
      created_at = created_at;
      is_held = true;
      spam_score = score;
      held_threshold = threshold;
      notified = false;
      held_at = some created_at;
    }

-- The statements run in one transaction: a broken constraint leaves the tables as they were.
unfoldable pub create_held_submission :
    Db → Text → ℕ → Submission → ℕ → ℕ → List SpamSignal → Db × Answer {0} Unit
unfolding held_row attach mem
create_held_submission db marshalled now sub score threshold signals =
    let taken = any (λ s. s.id == sub.id) db.submissions in
    if taken || not (mem sub.form_id db.forms) then (db, failed constraint) else (
      record db {
        submissions = db.submissions ++ held_row marshalled sub now score threshold ∷ [];
        signals = db.signals ++ attach sub.id signals;
      },
      done tt,
    )

unfoldable pub is_held_row : Text → Submission → Bool
is_held_row id s = (s.id == id) && s.is_held

unfoldable pub is_accepted_row : Text → Submission → Bool
is_accepted_row id s = (s.id == id) && not s.is_held

unfoldable pub released : Submission → Submission
released s = record s { is_held = false; read = false; held_at = none }

unfoldable pub withdrawn : ℕ → Submission → Submission
withdrawn now s = record s { is_held = true; read = false; held_at = some now }

unfoldable pub get_held_submission : Db → Text → Answer Submission
unfolding is_held_row classify_missing_held
get_held_submission db id = elim (first (is_held_row id) db.submissions) [
  | none ↦ failed (classify_missing_held db id)
  | some s ↦ done s
]

-- One statement, UPDATE with RETURNING, by the row that it finds.
unfoldable pub restored_by : Db → Text → Option Submission → Db × Answer Submission
unfolding is_held_row released update classify_missing_held
restored_by db id none = (db, failed (classify_missing_held db id))
restored_by db id (some s) =
    (record db { submissions = update (is_held_row id) released db.submissions }, done (released s))

unfoldable pub restore_submission : Db → Text → Db × Answer Submission
unfolding restored_by
restore_submission db id = restored_by db id (first (is_held_row id) db.submissions)

abbrev by_hand : Text → SpamSignal
by_hand actor = record { check = manual; field = []; matched = actor; weight = 0 }

unfoldable pub marked_by : Db → ℕ → Text → Text → Option Submission → Db × Answer Submission
unfolding is_accepted_row withdrawn update classify_missing_held
marked_by db now id actor none = (db, failed (classify_missing_held db id))
marked_by db now id actor (some s) = (
  record db {
    submissions = update (is_accepted_row id) (withdrawn now) db.submissions;
    signals = db.signals ++ (id, by_hand actor) ∷ [];
  },
  done (withdrawn now s),
)

unfoldable pub mark_spam : Db → ℕ → Text → Text → Db × Answer Submission
unfolding marked_by
mark_spam db now id actor = marked_by db now id actor (first (is_accepted_row id) db.submissions)

unfoldable pub mark_notified : Db → Text → Db
unfolding update
mark_notified db id = record db {
  submissions = update (λ s. s.id == id) (λ s. record s { notified = true }) db.submissions;
}

pub record HeldFilter : Type 0 where
  pub forms : FormScope
  pub held_before : Option ℕ

-- The WHERE of a filter, as a test on a row.
unfoldable pub where_held : HeldFilter → Submission → Bool
unfolding quarantined_since
where_held f s =
    s.is_held
    && allows f.forms s.form_id
    && elim f.held_before [ none ↦ true | some cutoff ↦ ltb (quarantined_since s) cutoff ]

unfoldable pub count_held : Db → HeldFilter → ℕ
unfolding where_held
count_held db f = count (where_held f) db.submissions

unfoldable pub delete_held_where : Db → HeldFilter → Db × ℕ
unfolding cascade where_held
delete_held_where db f = (cascade (where_held f) db, count (where_held f) db.submissions)

unfoldable pub clear_held : Db → HeldFilter → ℕ → Db × Answer ℕ
unfolding delete_held_where count_held
clear_held db f expected =
    let actual = count_held db f in
    let (rest, n) = delete_held_where db f in
    if not (actual =ℕ expected)
    then (db, failed (count_mismatch expected actual))
    else if not (n =ℕ actual)
    then (db, failed disk)
    else (rest, done n)

unfoldable pub delete_all_held : Db → Db × ℕ
unfolding delete_held_where
delete_all_held db = delete_held_where db (record { forms = all_forms; held_before = none })

-- The time 0 is Go's zero time, which `HeldFilter.where` reads as no bound.
abbrev pub cutoff_of : ℕ → Option ℕ
cutoff_of zero = none
cutoff_of (suc t) = some (suc t)

unfoldable pub purge_held_older_than : Db → ℕ → Db × ℕ
unfolding delete_held_where
purge_held_older_than db cutoff =
    delete_held_where db (record { forms = all_forms; held_before = cutoff_of cutoff })

-- The rows of one batch of `delete_held`.
unfoldable pub in_batch : List Text → FormScope → Submission → Bool
unfolding mem
in_batch chunk forms s = s.is_held && mem s.id chunk && allows forms s.form_id

abbrev batch : ℕ
batch = 500

-- The loop, on fuel: `breaks n` says that the statement of batch `n` fails. The result is the tables,
-- the running total and whether every batch ran.
unfoldable pub delete_held_from :
    ℕ → (ℕ → Bool) → FormScope → Db → List Text → ℕ → ℕ → Option (Db × ℕ × Bool)
unfolding cascade in_batch
delete_held_from fuel breaks forms db [] n total = some (db, total, true)
delete_held_from zero breaks forms db (id ∷ ids) n total = none
delete_held_from (suc fuel) breaks forms db (id ∷ ids) n total =
    let test = in_batch (take batch (id ∷ ids)) forms in
    let later =
      delete_held_from fuel breaks forms (cascade test db) (drop batch (id ∷ ids)) (n + 1)
        (total + count test db.submissions) in
    if breaks n then some (db, total, false) else later

unfoldable pub delete_held : (ℕ → Bool) → FormScope → Db → List Text → Option (Db × ℕ × Bool)
unfolding delete_held_from
delete_held breaks forms db ids = delete_held_from (length ids) breaks forms db ids 0 0
