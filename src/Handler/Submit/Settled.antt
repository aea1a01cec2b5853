-- ===== src/Handler/Submit/Settled.antt =====
-- internal/handler/submit.go: the answer does not depend on the verdict.
use dsforms.Common.{
  ℕ, if◌then◌else◌, Bool-cases, any, Text, ◌==◌, mem, ◌≡◌, refl, ◌∙◌, inl, inr, Bool, true, false,
  ◌||◌, not, List,
}
use dsforms.Screen.Decide.{Verdict}
use dsforms.Store.Quarantine.{
  SpamSignal, Submission, Db, Answer, done, failed, create_held_submission,
}
use dsforms.Handler.Submit.{
  create_submission, create_held_submission, unless_failing, internal_error, accepted_submission,
  blank, store_signals, deliver, unless_failing, create_submission, Form, Request, Server, Faults,
  Site, Response, Sent, data_of, answered, count_rule_hit, decided, respond_success,
}

-- The two writers succeed and fail alike, and what is answered depends on that alone.
written : Response → Answer {0} Unit → Response
written ok (done u) = ok
written ok (failed e) = internal_error

response-answered :
    (site : Site) (ok : Response) (out : List Sent) (wrote : Db × Answer {0} Unit)
    → (answered site ok out wrote).1 ≡ written ok wrote.1
unfolding answered written
response-answered site ok out (db, done u) = refl
response-answered site ok out (db, failed e) = refl

-- What is answered, whether the row is held or not.
unfoldable pub settled : Response → Bool → Bool → Response
settled ok fails taken = if fails then internal_error else if taken then internal_error else ok

abbrev pub is_taken : Db → Text → Text → Bool
is_taken db id form_id = any (λ s. s.id == id) db.submissions || not (mem form_id db.forms)

held-settled :
    (ok : Response) (fails : Bool) (db : Db) (text : Text) (now : ℕ) (sub : Submission)
    (score threshold : ℕ) (signals : List SpamSignal)
    → written ok
        (unless_failing fails db (create_held_submission db text now sub score threshold signals)).1
      ≡ settled ok fails (is_taken db sub.id sub.form_id)
unfolding written unless_failing create_held_submission settled
held-settled ok true db text now sub score threshold signals = refl
held-settled ok false db text now sub score threshold signals =
    elim (Bool-cases (is_taken db sub.id sub.form_id)) [ inl e ↦ rw e refl | inr e ↦ rw e refl ]

inbox-settled :
    (ok : Response) (fails : Bool) (db : Db) (now : ℕ) (sub : Submission)
    → written ok (unless_failing fails db (create_submission db now sub)).1
      ≡ settled ok fails (is_taken db sub.id sub.form_id)
unfolding written unless_failing create_submission settled
inbox-settled ok true db now sub = refl
inbox-settled ok false db now sub = elim (Bool-cases (is_taken db sub.id sub.form_id)) [
  | inl e ↦ rw e refl
  | inr e ↦ rw e refl
]

pub decided-settled :
    (s : Server) (faults : Faults) (now : ℕ) (id : Text) (site : Site) (form : Form) (r : Request)
    (ip url : Text) (v : Verdict)
    → (decided s faults now id site form r ip url v).1
      ≡ settled (respond_success r url) faults.save (is_taken site.db id r.form_id)
unfolding decided count_rule_hit
decided-settled s faults now id site form r ip url v =
    let accepted = accepted_submission s id ip r now v in
    let text = s.marshal (data_of r.post) in
    elim (Bool-cases v.hold) [
      | inl e ↦ rw e (
          response-answered (count_rule_hit faults v site) _ _ _
          ∙ held-settled (respond_success r url) faults.save site.db text now
              (blank id r.form_id ip now) v.score v.threshold (store_signals v.signals))
      | inr e ↦ rw e (
          response-answered (count_rule_hit faults v site) _ (deliver s form accepted) _
          ∙ inbox-settled (respond_success r url) faults.save site.db now accepted)
    ]
