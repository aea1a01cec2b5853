-- ===== src/Handler/Submit/Outcomes.antt =====
-- internal/handler/submit.go: what the handler does once there is a verdict.
use dsforms.Common.{
  ℕ, if◌then◌else◌, Bool-cases, any, Text, bytes, eq_iff, ◌==◌, contains, mem, ◌≡◌, refl, ◌⊎◌, inl,
  inr, Bool, true, false, ◌||◌, not, List, [], ◌∷◌, ◌++◌, arith,
}
use dsforms.Screen.Decide.{Verdict}
use mathlib.Core.List.{append-nil}
use dsforms.Repeat.{Tracker}
use dsforms.Store.Quarantine.{
  attach, constraint, SpamSignal, Submission, Db, Answer, done, failed, create_held_submission,
  held_row,
}
use dsforms.Urlsafe.Destinations.{IsVouched}
use dsforms.Handler.Submit.{
  blank, store_signals, Form, Request, Server, Faults, Site, Response, found, success_json, Sent,
  deliver, data_of, form_value, answered, unless_failing, count_rule_hit, create_submission,
  inbox_row, accepted_submission, decided, respond_success,
}

-- What a writer did: one more row, or nothing.
abbrev Wrote : Db → Submission → Db × Answer {0} Unit → Type 0
Wrote db row (d, done u) = d.submissions ≡ db.submissions ++ row ∷ []
Wrote db row (d, failed e) = d ≡ db

held-Wrote :
    (fails : Bool) (db : Db) (text : Text) (now : ℕ) (sub : Submission) (score threshold : ℕ)
    (signals : List SpamSignal)
    → Wrote db
        (held_row text sub now score threshold)
        (unless_failing fails db (create_held_submission db text now sub score threshold signals))
unfolding unless_failing create_held_submission
held-Wrote true db text now sub score threshold signals = refl
held-Wrote false db text now sub score threshold signals =
    elim (any (λ s. s.id == sub.id) db.submissions || not (mem sub.form_id db.forms))
      as (λ b. Wrote db (held_row text sub now score threshold) (
        if b then (db, failed constraint) else (
          record db {
            submissions = db.submissions ++ held_row text sub now score threshold ∷ [];
            signals = db.signals ++ attach sub.id signals;
          },
          done tt,
        ))) [ true ↦ refl | false ↦ refl ]

inbox-Wrote :
    (fails : Bool) (db : Db) (now : ℕ) (sub : Submission)
    → Wrote db (inbox_row now sub) (unless_failing fails db (create_submission db now sub))
unfolding unless_failing create_submission
inbox-Wrote true db now sub = refl
inbox-Wrote false db now sub =
    elim (any (λ s. s.id == sub.id) db.submissions || not (mem sub.form_id db.forms))
      as (λ b. Wrote db (inbox_row now sub) (
        if b
        then (db, failed constraint)
        else (record db { submissions = db.submissions ++ inbox_row now sub ∷ [] }, done tt))) [
          | true ↦ refl
          | false ↦ refl
        ]

-- Who is told of a row: nobody if it is held, and otherwise those that the form is configured for.
abbrev pub Told : Server → Form → Submission → List Sent → List Sent → Type 0
Told s form row before after =
    ((row.is_held ≡ true) × (after ≡ before))
    ⊎ ((row.is_held ≡ false)
        × (sub : Submission) × (sub.raw_data ≡ row.raw_data)
        × (after ≡ before ++ deliver s form sub))

-- The submission was stored with all its fields.
abbrev pub IsStored : Server → Request → Form → Site → Site → Type 0
IsStored s r form site after =
    (row : Submission) × (after.db.submissions ≡ site.db.submissions ++ row ∷ [])
    × (row.raw_data ≡ s.marshal (data_of r.post))
    × (row.form_id ≡ r.form_id)
    × Told s form row site.sent after.sent

-- Success says that the submission is stored, or was dropped for its honeypot field, and sends a browser
-- only where the operator vouched for; any other answer says
-- that nothing was stored and nobody told.
abbrev pub Fate : Server → Request → Form → Site → Site × Response → Type 0
Fate s r form site (after, success_json) =
    ((form_value r (bytes "_honeypot") == []) ≡ false) ⊎ IsStored s r form site after
Fate s r form site (after, found url) =
    (((form_value r (bytes "_honeypot") == []) ≡ false) ⊎ IsStored s r form site after)
    × IsVouched s.web form.redirect s.base_url url
Fate s r form site (after, other) = (after.db ≡ site.db) × (after.sent ≡ site.sent)

pub success-Fate :
    (s : Server) (r : Request) (form : Form) (site after : Site) (url : Text)
    → ((form_value r (bytes "_honeypot") == []) ≡ false) ⊎ IsStored s r form site after
    → IsVouched s.web form.redirect s.base_url url
    → Fate s r form site (after, respond_success r url)
unfolding respond_success
success-Fate s r form site after url h vouched =
    elim (Bool-cases (contains r.accept (bytes "application/json"))) [
      | inl e ↦ rw e h
      | inr e ↦ rw e (h, vouched)
    ]

answered-Fate :
    (s : Server) (r : Request) (form : Form) (site : Site) (hits : Text → ℕ) (t : Tracker)
    (url : Text) (out : List Sent) (row : Submission) (wrote : Db × Answer {0} Unit)
    → Wrote site.db row wrote
    → row.raw_data ≡ s.marshal (data_of r.post)
    → row.form_id ≡ r.form_id
    → Told s form row site.sent (site.sent ++ out)
    → IsVouched s.web form.redirect s.base_url url
    → Fate s r form site
        (answered (record site { hits = hits; tracker = t }) (respond_success r url) out wrote)
unfolding answered
answered-Fate s r form site hits t url out row (db, done u) w d f told vouched =
    success-Fate s r form site
      (record site { hits = hits; tracker = t; db = db; sent = site.sent ++ out }) url
      (inr (row, w, d, f, told)) vouched
answered-Fate s r form site hits t url out row (db, failed e) w d f told vouched = (w, refl)

raw_data-held_row :
    (text : Text) (sub : Submission) (now score threshold : ℕ)
    → sub.raw_data ≡ []
    → (held_row text sub now score threshold).raw_data ≡ text
unfolding held_row
raw_data-held_row text sub now score threshold e = ground (arith, eq_iff sub.raw_data [], e)

pub decided-Fate :
    (s : Server) (faults : Faults) (now : ℕ) (id : Text) (site : Site) (t : Tracker) (form : Form)
    (r : Request) (ip url : Text) (v : Verdict)
    → IsVouched s.web form.redirect s.base_url url
    → Fate s r form site (decided s faults now id (record site { tracker = t }) form r ip url v)
unfolding decided count_rule_hit
decided-Fate s faults now id site t form r ip url v vouched =
    let sub = blank id r.form_id ip now in
    let text = s.marshal (data_of r.post) in
    let accepted = accepted_submission s id ip r now v in
    elim (Bool-cases v.hold) [
      | inl e ↦ rw e (
          answered-Fate s r form site _ t url [] (held_row text sub now v.score v.threshold) _
            (held-Wrote faults.save site.db text now sub v.score v.threshold
              (store_signals v.signals))
            (raw_data-held_row text sub now v.score v.threshold refl) (unfold held_row in refl)
            (inl (unfold held_row in refl, append-nil site.sent)) vouched)
      | inr e ↦ rw e (
          answered-Fate s r form site _ t url (deliver s form accepted) (inbox_row now accepted) _
            (inbox-Wrote faults.save site.db now accepted) (unfold inbox_row in refl)
            (unfold inbox_row in refl)
            (inr (unfold inbox_row in refl, accepted, unfold inbox_row in refl, refl)) vouched)
    ]
