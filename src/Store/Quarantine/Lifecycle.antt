-- ===== src/Store/Quarantine/Lifecycle.antt =====
-- internal/store/quarantine.go: how one submission moves between the inbox and the quarantine.
use dsforms.Common.{
  ℕ, if◌then◌else◌, Bool-ext, first, Text, eq_sound, eq_refl, eq_complete, eq_iff, ◌==◌, ◌≡◌, refl,
  sym, ap, ◌∙◌, Bool, true, false, ◌&&◌, not, Option, none, some, List, [], ◌∷◌, ◌++◌, arith,
}
use dsforms.Screen.Score.{manual}
use dsforms.Store.Quarantine.{
  Db, Submission, done, failed, gone, not_found, find, update, is_held_row, is_accepted_row,
  released, withdrawn, restore_submission, mark_spam, classify_missing_held, by_hand, marked_by,
  restored_by, miss_of,
}

-- No id twice: the primary key.
abbrev pub IsKeyed : List Submission → Type 0
IsKeyed [] = Unit
IsKeyed (s ∷ subs) = (find s.id subs ≡ none) × IsKeyed subs

abbrev on : (Submission → Bool) → (Submission → Submission) → Option Submission → Option Submission
on q change none = none
on q change (some s) = some (if q s then change s else s)

abbrev only : (Submission → Bool) → Option Submission → Option Submission
only q none = none
only q (some s) = if q s then some s else none

id_kept :
    (t : Bool) (change : Submission → Submission) (s : Submission)
    → ((s : Submission) → (change s).id ≡ s.id)
    → (if t then change s else s).id ≡ s.id
id_kept true change s h = h s
id_kept false change s h = refl

same_text : (a b c : Text) → (a == c) ≡ true → (a == b) ≡ (b == c)
same_text a b c e =
    Bool-ext (a == b) (b == c) (λ f. eq_complete b c (sym (eq_sound a b f) ∙ eq_sound a c e))
      (λ f. eq_complete a b (eq_sound a c e ∙ sym (eq_sound b c f)))

pick :
    (a b c : Bool) (q : Submission → Bool) (change : Submission → Submission) (s : Submission)
    (rest : Option Submission)
    → (a ≡ true → b ≡ c)
    → ◌≡◌ {A = Option Submission}
        (if a
          then some (if b && q s then change s else s)
          else if c
          then on q change rest
          else rest)
        (if c then on q change (if a then some s else rest) else if a then some s else rest)
pick true b true q change s rest h = rw (h refl) refl
pick true b false q change s rest h = rw (h refl) refl
pick false b true q change s rest h = refl
pick false b false q change s rest h = refl

pub find-update :
    (id j : Text) (q : Submission → Bool) (change : Submission → Submission)
    (subs : List Submission)
    → ((s : Submission) → (change s).id ≡ s.id)
    → find j (update (λ s. (s.id == id) && q s) change subs)
      ≡ (if id == j then on q change (find j subs) else find j subs)
unfolding find update
find-update id j q change [] h = ground arith
find-update id j q change (s ∷ subs) h =
    ap
      (λ t.
        if t == j
        then some (if (s.id == id) && q s then change s else s)
        else find j (update (λ s. (s.id == id) && q s) change subs))
      (id_kept ((s.id == id) && q s) change s h)
    ∙ ap (λ rest. if s.id == j then some (if (s.id == id) && q s then change s else s) else rest)
        (find-update id j q change subs h)
    ∙ pick (s.id == j) (s.id == id) (id == j) q change s (find j subs) (same_text s.id id j)

pub first-find :
    (id : Text) (q : Submission → Bool) (subs : List Submission)
    → IsKeyed subs
    → first (λ s. (s.id == id) && q s) subs ≡ only q (find id subs)
unfolding find
first-find id q [] h = refl
first-find id q (s ∷ subs) h = ground (arith, first-find id q subs h.1, h.0, eq_iff s.id id)

first-none :
    (id : Text) (q : Submission → Bool) (subs : List Submission)
    → IsKeyed subs
    → find id subs ≡ none
    → first (λ s. (s.id == id) && q s) subs ≡ none
first-none id q subs keyed e = first-find id q subs keyed ∙ ap (only q) e

first-some :
    (id : Text) (q : Submission → Bool) (subs : List Submission) (s : Submission)
    → IsKeyed subs
    → find id subs ≡ some s
    → first (λ s. (s.id == id) && q s) subs ≡ (if q s then some s else none)
first-some id q subs s keyed e = first-find id q subs keyed ∙ ap (only q) e

find-changed :
    (id : Text) (q : Submission → Bool) (change : Submission → Submission) (subs : List Submission)
    (s : Submission)
    → ((s : Submission) → (change s).id ≡ s.id)
    → find id subs ≡ some s
    → q s ≡ true
    → find id (update (λ s. (s.id == id) && q s) change subs) ≡ some (change s)
find-changed id q change subs s h e t =
    find-update id id q change subs h
    ∙ rw (eq_refl id, e) (ap (λ b. some (if b then change s else s)) t)

find-others :
    (id j : Text) (q : Submission → Bool) (change : Submission → Submission)
    (subs : List Submission)
    → ((s : Submission) → (change s).id ≡ s.id)
    → (id == j) ≡ false
    → find j (update (λ s. (s.id == id) && q s) change subs) ≡ find j subs
find-others id j q change subs h ne = find-update id j q change subs h ∙ rw ne refl

restored_none :
    (db : Db) (id : Text) (o : Option Submission)
    → find id db.submissions ≡ o
    → restored_by db id none ≡ (db, failed (miss_of o))
unfolding restored_by classify_missing_held
restored_none db id o e = ap (λ p. (db, failed (miss_of p))) e

-- What holds whether or not a row is found.
restored_either :
    (db : Db) (id : Text) (o : Option Submission) (P : Db → Type 0)
    → P db
    → P (record db { submissions = update (is_held_row id) released db.submissions })
    → P (restored_by db id o).0
unfolding restored_by
restored_either db id none P p q = p
restored_either db id (some s) P p q = q

marked_none :
    (db : Db) (now : ℕ) (id actor : Text) (o : Option Submission)
    → find id db.submissions ≡ o
    → marked_by db now id actor none ≡ (db, failed (miss_of o))
unfolding marked_by classify_missing_held
marked_none db now id actor o e = ap (λ p. (db, failed (miss_of p))) e

marked_either :
    (db : Db) (now : ℕ) (id actor : Text) (o : Option Submission) (P : Db → Type 0)
    → P db
    → P (record db {
      submissions = update (is_accepted_row id) (withdrawn now) db.submissions;
      signals = db.signals ++ (id, by_hand actor) ∷ [];
    })
    → P (marked_by db now id actor o).0
unfolding marked_by
marked_either db now id actor none P p q = p
marked_either db now id actor (some s) P p q = q

-- Where ids are unique, restoring a held submission answers with it, accepted, unread and not held
-- since any time, and stores it so: its score, its threshold and whether its notification went stay.
-- Restoring an accepted one or one that is not there changes nothing, and the two failures differ.
-- No other submission and no signal changes.
pub restore_submission-Step :
    (db : Db) (id : Text)
    → IsKeyed db.submissions
    → ((s : Submission)
        → find id db.submissions ≡ some s
        → s.is_held ≡ true
        → ((restore_submission db id).1
            ≡ done (record s { is_held = false; read = false; held_at = none }))
          × (find id (restore_submission db id).0.submissions
              ≡ some (record s { is_held = false; read = false; held_at = none })))
      × ((s : Submission)
          → find id db.submissions ≡ some s
          → s.is_held ≡ false
          → restore_submission db id ≡ (db, failed not_found))
      × (find id db.submissions ≡ none → restore_submission db id ≡ (db, failed gone))
      × ((j : Text)
          → (id == j) ≡ false
          → find j (restore_submission db id).0.submissions ≡ find j db.submissions)
      × ((restore_submission db id).0.signals ≡ db.signals)
unfolding restore_submission is_held_row released miss_of
restore_submission-Step db id keyed = (
  λ s e h.
      let run = ap (restored_by db id) (
        first-some id (λ s. s.is_held) db.submissions s keyed e
        ∙ ap (λ b. if b then some s else none) h) in
      (
        ap (λ r. r.1) run,
        ap (λ r. find id r.0.submissions) run
            ∙ find-changed id (λ s. s.is_held) released db.submissions s (λ s. refl) e h,
      ),
  λ s e h.
      ap (restored_by db id) (
        first-some id (λ s. s.is_held) db.submissions s keyed e
        ∙ ap (λ b. if b then some s else none) h)
      ∙ restored_none db id _ e,
  λ e.
      ap (restored_by db id) (first-none id (λ s. s.is_held) db.submissions keyed e)
      ∙ restored_none db id _ e,
  λ j ne.
      restored_either db id (first (is_held_row id) db.submissions)
        (λ u. find j u.submissions ≡ find j db.submissions) refl
        (find-others id j (λ s. s.is_held) released db.submissions (λ s. refl) ne),
  restored_either db id (first (is_held_row id) db.submissions) (λ u. u.signals ≡ db.signals) refl
      refl,
)

-- Where ids are unique, marking an accepted submission as spam answers with it, held from now on and
-- unread, stores it so, and adds one signal of weight 0 that names who did it: its score, its
-- threshold and whether its notification went stay. Marking a held one or one that is not there
-- changes nothing, and the two failures differ. No other submission changes.
pub mark_spam-Step :
    (db : Db) (now : ℕ) (id actor : Text)
    → IsKeyed db.submissions
    → ((s : Submission)
        → find id db.submissions ≡ some s
        → s.is_held ≡ false
        → ((mark_spam db now id actor).1
            ≡ done (record s { is_held = true; read = false; held_at = some now }))
          × (find id (mark_spam db now id actor).0.submissions
              ≡ some (record s { is_held = true; read = false; held_at = some now }))
          × ((mark_spam db now id actor).0.signals
              ≡ db.signals
                ++ (id, record { check = manual; field = []; matched = actor; weight = 0 }) ∷ []))
      × ((s : Submission)
          → find id db.submissions ≡ some s
          → s.is_held ≡ true
          → mark_spam db now id actor ≡ (db, failed not_found))
      × (find id db.submissions ≡ none → mark_spam db now id actor ≡ (db, failed gone))
      × ((j : Text)
          → (id == j) ≡ false
          → find j (mark_spam db now id actor).0.submissions ≡ find j db.submissions)
unfolding mark_spam is_accepted_row withdrawn miss_of
mark_spam-Step db now id actor keyed = (
  λ s e h.
      let run = ap (marked_by db now id actor) (
        first-some id (λ s. not s.is_held) db.submissions s keyed e
        ∙ ap (λ b. if not b then some s else none) h) in
      (
        ap (λ r. r.1) run,
        ap (λ r. find id r.0.submissions) run
            ∙ find-changed id (λ s. not s.is_held) (withdrawn now) db.submissions s (λ s. refl) e
                (ap not h),
        ap (λ r. r.0.signals) run,
      ),
  λ s e h.
      ap (marked_by db now id actor) (
        first-some id (λ s. not s.is_held) db.submissions s keyed e
        ∙ ap (λ b. if not b then some s else none) h)
      ∙ marked_none db now id actor _ e,
  λ e.
      ap (marked_by db now id actor) (first-none id (λ s. not s.is_held) db.submissions keyed e)
      ∙ marked_none db now id actor _ e,
  λ j ne.
      marked_either db now id actor (first (is_accepted_row id) db.submissions)
        (λ u. find j u.submissions ≡ find j db.submissions) refl
        (find-others id j (λ s. not s.is_held) (withdrawn now) db.submissions (λ s. refl) ne),
)
