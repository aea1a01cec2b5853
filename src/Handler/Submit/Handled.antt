-- ===== src/Handler/Submit/Handled.antt =====
-- internal/handler/submit.go: what a response says of a submission, and what it does not say.
use dsforms.Common.{
  ℕ, ◌=ℕ◌, if◌then◌else◌, Bool-cases, length, Text, bytes, ◌==◌, ◌≡◌, refl, sym, ◌∙◌, subst, inl,
  inr, Bool, true, false, not, Option, none, some, List, [], arith,
}
use dsforms.Screen.Addr.{sender_valid}
use dsforms.Screen.Decide.{Verdict, Input, decide, decide_repeated}
use dsforms.Screen.Decide.Verdicts.{decide-total}
use dsforms.Repeat.Bounded.{IsValid}
use dsforms.Store.Quarantine.{Db, Answer, done, failed}
use dsforms.Urlsafe.Destinations.{IsVouched, redirect-IsVouched}
use dsforms.Handler.Submit.Outcomes.{Fate, decided-Fate, success-Fate}
use dsforms.Handler.Submit.{
  form_not_found, bad_request, no_form_data, invalid_email, find_form, handle_found, handle,
  internal_error, Form, Request, Server, Faults, Site, Response, Sent, data_of, form_value,
  answered, count_rule_hit, decided, screened, handle_form, respond_success, redirect_target,
}
use dsforms.Handler.Submit.Settled.{settled, is_taken, decided-settled}

tracker-answered :
    (site : Site) (ok : Response) (out : List Sent) (wrote : Db × Answer {0} Unit)
    → (answered site ok out wrote).0.tracker ≡ site.tracker
unfolding answered
tracker-answered site ok out (db, done u) = refl
tracker-answered site ok out (db, failed e) = refl

tracker-decided :
    (s : Server) (faults : Faults) (now : ℕ) (id : Text) (site : Site) (form : Form) (r : Request)
    (ip url : Text) (v : Verdict)
    → (decided s faults now id site form r ip url v).0.tracker ≡ site.tracker
unfolding decided count_rule_hit
tracker-decided s faults now id site form r ip url v = elim (Bool-cases v.hold) [
  | inl e ↦ rw e (tracker-answered (count_rule_hit faults v site) _ _ _)
  | inr e ↦ rw e (tracker-answered (count_rule_hit faults v site) _ _ _)
]

-- The handler answers, and leaves the tracker of repeats valid.
abbrev pub Handled : (Site × Response → Type 0) → Option (Site × Response) → Type 0
Handled P o = (out : Site × Response) × (o ≡ some out) × IsValid out.0.tracker × P out

-- What is answered to a submission of a form, by what the request holds and what the store does.
unfoldable pub answer_due : Server → Faults → Text → Site → Request → Form → Response
unfolding settled
answer_due s faults id site r form =
    let success = respond_success r (redirect_target s r form) in
    if not r.parses
    then bad_request
    else if not (form_value r (bytes "_honeypot") == [])
    then success
    else if length (data_of r.post) =ℕ 0
    then no_form_data
    else if not (sender_valid s.platform (data_of r.post))
    then invalid_email
    else settled success faults.save (is_taken site.db id r.form_id)

-- What the handler did for a form that exists.
abbrev Due : Server → Faults → Text → Site → Request → Form → Site × Response → Type 0
Due s faults id site r form out =
    Fate s r form site out × (out.1 ≡ answer_due s faults id site r form)

screened-Handled :
    (s : Server) (faults : Faults) (now : ℕ) (id : Text) (site : Site) (form : Form) (r : Request)
    (ip url : Text) (input : Input)
    → IsValid site.tracker
    → IsVouched s.web form.redirect s.base_url url
    → Handled
        (λ out.
          Fate s r form site out
          × (out.1 ≡ settled (respond_success r url) faults.save (is_taken site.db id r.form_id)))
        (screened
          (λ site v. decided s faults now id site form r ip url v)
          site
          (decide s.platform site.tracker input))
unfolding screened
screened-Handled s faults now id site form r ip url input valid vouched =
    let (t, b, _, valid', e) = decide-total s.platform site.tracker input valid in
    let v = decide_repeated s.platform input b in
    let before = record site { tracker = t } in
    rw e (
      decided s faults now id before form r ip url v,
      refl,
      subst IsValid (sym (tracker-decided s faults now id before form r ip url v)) valid',
      (
        decided-Fate s faults now id site t form r ip url v vouched,
        decided-settled s faults now id before form r ip url v,
      ),
    )

branch-Handled :
    (P : Site × Response → Type 0) (b : Bool) (x y : Option (Site × Response))
    → (b ≡ true → Handled P x)
    → (b ≡ false → Handled P y)
    → Handled P (if b then x else y)
branch-Handled P true x y f g = f refl
branch-Handled P false x y f g = g refl

redirect_target-IsVouched :
    (s : Server) (r : Request) (form : Form)
    → IsVouched s.web form.redirect s.base_url (redirect_target s r form)
unfolding redirect_target
redirect_target-IsVouched s r form =
    (redirect-IsVouched s.web (form_value r (bytes "_redirect")) form.redirect s.base_url).0

handle_form-Handled :
    (s : Server) (faults : Faults) (now : ℕ) (id : Text) (site : Site) (r : Request) (form : Form)
    → IsValid site.tracker
    → Handled (Due s faults id site r form) (handle_form s faults now id site r form)
unfolding handle_form answer_due
handle_form-Handled s faults now id site r form valid =
    let fields = data_of r.post in
    let url = redirect_target s r form in
    let due = Due s faults id site r form in
    let vouched = redirect_target-IsVouched s r form in
    branch-Handled due (not r.parses) _ _
      (λ p. ((site, bad_request), refl, valid, ((refl, refl), rw p refl)))
      (λ p.
        branch-Handled due (not (form_value r (bytes "_honeypot") == [])) _ _
          (λ h. (
            (site, respond_success r url),
            refl,
            valid,
            (success-Fate s r form site site url (inl (ground (arith, h))) vouched, rw (p, h) refl),
          ))
          (λ h.
            branch-Handled due (length fields =ℕ 0) _ _
              (λ f. ((site, no_form_data), refl, valid, ((refl, refl), rw (p, h, f) refl)))
              (λ f.
                branch-Handled due (not (sender_valid s.platform fields)) _ _
                  (λ v. ((site, invalid_email), refl, valid, ((refl, refl), rw (p, h, f, v) refl)))
                  (λ v.
                    rw (p, h, f, v)
                      (screened-Handled s faults now id site form r _ url _ valid vouched)))))

-- What the whole handler did, by the form that the address names.
abbrev pub HandledFor :
    Server → Faults → Text → Site → Request → Option Form → Site × Response → Type 0
HandledFor s faults id site r none out =
    (out.0 ≡ site) × (out.1 ≡ (if faults.get_form then internal_error else form_not_found))
HandledFor s faults id site r (some form) out =
    Fate s r form site out
    × (out.1 ≡ (if faults.get_form then internal_error else answer_due s faults id site r form))

otherwise : (b : Bool) (x y : Response) → b ≡ false → y ≡ (if b then x else y)
otherwise b x y e = rw e refl

found-Handled :
    (s : Server) (faults : Faults) (now : ℕ) (id : Text) (site : Site) (r : Request)
    (o : Option Form)
    → IsValid site.tracker
    → faults.get_form ≡ false
    → Handled (HandledFor s faults id site r o) (handle_found s faults now id site r o)
unfolding handle_found
found-Handled s faults now id site r none valid g = (_, refl, valid, (refl, rw g refl))
found-Handled s faults now id site r (some form) valid g =
    let (out, e, valid', (fate, due)) = handle_form-Handled s faults now id site r form valid in
    (out, e, valid', (fate, due ∙ otherwise faults.get_form internal_error _ g))

failing-HandledFor :
    (s : Server) (faults : Faults) (id : Text) (site : Site) (r : Request) (o : Option Form)
    → faults.get_form ≡ true
    → HandledFor s faults id site r o (site, internal_error)
failing-HandledFor s faults id site r none g = (refl, rw g refl)
failing-HandledFor s faults id site r (some form) g = ((refl, refl), rw g refl)

-- With a valid tracker of repeats every request is answered, whatever store calls fail, and the tracker
-- stays valid. If the address names no form, nothing changes, and the answer says so, or is an error of
-- the server when the lookup fails. Otherwise success is answered only if the honeypot field was filled
-- in, or if one row was added that holds the fields of the body; of a row that is held nobody is
-- told, and of another one those that the form is configured for; and a browser is sent only to a
-- destination that the operator vouched for. After any other answer the tables are as before and nobody
-- was told. The answer depends on the request and the store alone: a body that parses, has a field, and
-- has no sender that is not an address is answered with success unless the row cannot be written.
pub handle-Handled :
    (s : Server) (faults : Faults) (now : ℕ) (id : Text) (site : Site) (r : Request)
    → IsValid site.tracker
    → Handled
        (HandledFor s faults id site r (find_form r.form_id site.forms))
        (handle s faults now id site r)
unfolding handle
handle-Handled s faults now id site r valid =
    let o = find_form r.form_id site.forms in
    branch-Handled (HandledFor s faults id site r o) faults.get_form _ _
      (λ g. ((site, internal_error), refl, valid, failing-HandledFor s faults id site r o g))
      (λ g. found-Handled s faults now id site r o valid g)

-- The response does not tell a held submission from an accepted one: at the same site, with the same
-- store calls failing, every verdict is answered alike.
pub decided-alike :
    (s : Server) (faults : Faults) (now : ℕ) (id : Text) (site : Site) (form : Form) (r : Request)
    (ip url : Text) (v w : Verdict)
    → (decided s faults now id site form r ip url v).1
      ≡ (decided s faults now id site form r ip url w).1
decided-alike s faults now id site form r ip url v w =
    decided-settled s faults now id site form r ip url v
    ∙ sym (decided-settled s faults now id site form r ip url w)
