-- ===== src/Store/Quarantine/Examples.antt =====
-- internal/store/quarantine.go: two submissions, one of them held.
use dsforms.Common.{
  ℕ, ◌+◌, leb, length, keep, Text, bytes, ◌==◌, ◌≡◌, refl, Bool, true, false, ◌||◌, not, none, some,
  [], ◌∷◌,
}
use dsforms.Store.FormScope.{all_forms, allows}
use dsforms.Screen.Score.{gibberish}
use dsforms.Store.Quarantine.{
  purge_held_older_than, done, Db, Submission, HeldFilter, failed, not_found, find,
  restore_submission, mark_spam, cascade, clear_held, delete_held, where_held, count_held,
}
use dsforms.Store.Quarantine.Lifecycle.{restore_submission-Step, mark_spam-Step}
use dsforms.Store.Quarantine.Deletion.{
  started, delete_held-IsErased, IsErased, clear_held-all, purge_held_older_than_sound,
}
use dsforms.Store.Quarantine.Wellformed.{IsWf}
use dsforms.Store.Quarantine.Reachable.{restore, mark, after, after-IsWf}

abbrev row : Text → Submission
row id = record {
  id = id;
  form_id = bytes "f";
  raw_data = bytes "{}";
  ip = bytes "10.0.0.1";
  read = true;
  created_at = 100;
  is_held = false;
  spam_score = 2;
  held_threshold = 6;
  notified = true;
  held_at = none;
}

abbrev held : Submission
held = record (row (bytes "b")) { is_held = true; read = false; held_at = some 100; spam_score = 8 }

abbrev tables : Db
tables = record {
  forms = bytes "f" ∷ [];
  submissions = row (bytes "a") ∷ held ∷ [];
  signals = (bytes "b", record { check = gibberish; field = []; matched = []; weight = 8 }) ∷ [];
}

tables-IsWf : IsWf tables
unfolding find ◌==◌
tables-IsWf = record { keyed = (refl, (refl, tt)); dated = refl; owned = refl }

restore_submission-Step_example :
    ((restore_submission tables (bytes "b")).1
      ≡ done (record held { is_held = false; read = false; held_at = none }))
    × (find (bytes "b") (restore_submission tables (bytes "b")).0.submissions
        ≡ some (record held { is_held = false; read = false; held_at = none }))
unfolding find ◌==◌
restore_submission-Step_example =
    (restore_submission-Step tables (bytes "b") tables-IsWf.keyed).0 held refl refl

mark_spam-Step_example : mark_spam tables 200 (bytes "b") (bytes "ann") ≡ (tables, failed not_found)
unfolding find ◌==◌
mark_spam-Step_example =
    (mark_spam-Step tables 200 (bytes "b") (bytes "ann") tables-IsWf.keyed).1 held refl refl

delete_held-IsErased_example :
    (out : Db × ℕ × Bool) × (delete_held (λ n. false) all_forms tables (bytes "b" ∷ []) ≡ some out)
    × IsErased (λ n. false) all_forms tables (bytes "b" ∷ []) out
delete_held-IsErased_example = delete_held-IsErased (λ n. false) all_forms tables (bytes "b" ∷ [])

abbrev everything : HeldFilter
everything = record { forms = record { all = true; ids = [] }; held_before = none }

clear_held-all_example :
    (clear_held tables everything 1 ≡ (cascade (where_held everything) tables, done 1))
    × (count_held (cascade (where_held everything) tables) everything ≡ 0)
    × (length (cascade (where_held everything) tables).submissions + 1 ≡ length tables.submissions)
    × (keep (λ s. not s.is_held) (cascade (where_held everything) tables).submissions
        ≡ keep (λ s. not s.is_held) tables.submissions)
    × (keep
          (λ s. not (allows everything.forms s.form_id))
          (cascade (where_held everything) tables).submissions
        ≡ keep (λ s. not (allows everything.forms s.form_id)) tables.submissions)
unfolding count_held where_held allows
clear_held-all_example = (clear_held-all tables everything 1).1 refl

after-IsWf_example :
    IsWf (after (restore (bytes "b") ∷ mark 200 (bytes "a") (bytes "ann") ∷ []) tables)
after-IsWf_example =
    after-IsWf (restore (bytes "b") ∷ mark 200 (bytes "a") (bytes "ann") ∷ []) tables tables-IsWf

purge_held_older_than_sound_example :
    ((purge_held_older_than tables 150).0.submissions
      ≡ keep (λ s. not s.is_held || leb 150 (started s)) tables.submissions)
    × (length (purge_held_older_than tables 150).0.submissions
          + (purge_held_older_than tables 150).1
        ≡ length tables.submissions)
purge_held_older_than_sound_example = purge_held_older_than_sound tables 150
