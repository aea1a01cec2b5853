-- ===== src/Handler/Submit.antt =====
-- internal/handler/submit.go: one submission, from the request to the response, with the parts that it
-- goes through: the redirect (Urlsafe), the screener (Screen/Decide), the tables (Store/Quarantine).
-- A store call can fail, and which ones do is an argument. Log lines are left out.
pub mod Outcomes
pub mod Settled
pub mod Handled
mod Examples
use dsforms.Common.{
  ℕ, ◌+◌, ◌=ℕ◌, if◌then◌else◌, length, any, Text, bytes, ◌==◌, contains, cut, trim_space, mem, Bool,
  true, false, ◌&&◌, ◌||◌, not, Option, none, some, List, [], ◌∷◌, ◌++◌,
}
use dsforms.Common.Int.{ℤ, pos, ltb_ℤ}
use dsforms.Common.Assoc.{Assoc, lookup}
use dsforms.Common.Web.{Web}
use dsforms.Screen.Platform.{Platform}
use dsforms.Screen.Addr.{sender_valid}
use dsforms.Screen.Rules.{Rule}
use dsforms.Screen.Score.{Signal, default_threshold}
use dsforms.Screen.Decide.{Verdict, decide}
use dsforms.Repeat.{Tracker}
use dsforms.Store.Quarantine.{
  Submission, SpamSignal, Db, Answer, done, failed, constraint, disk, create_held_submission,
}
use dsforms.Urlsafe.{redirect}

pub record Form : Type 0 where
  pub id : Text
  pub email_to : Text
  pub redirect : Text
  pub webhook_url : Text
  pub spam_threshold : ℤ

-- `post` are the fields of the body, `query` those of the address.
pub record Request : Type 0 where
  pub form_id : Text
  pub parses : Bool
  pub post : Assoc (List Text)
  pub query : Assoc (List Text)
  pub accept : Text
  pub forwarded_for : Text
  pub real_ip : Text
  pub remote_addr : Text

-- What the handler is built with: its configuration, and the packages it calls. `marshal` is
-- `json.Marshal` on the fields, `split_host` is `net.SplitHostPort`.
pub record Server : Type 0 where
  pub platform : Platform
  pub web : Web
  pub split_host : Text → Option Text
  pub marshal : Assoc Text → Text
  pub base_url : Text
  pub default_threshold : ℤ
  pub has_notifier : Bool
  pub has_webhook : Bool

-- The store calls that fail.
pub record Faults : Type 0 where
  pub get_form : Bool
  pub list_rules : Bool
  pub count_hit : Bool
  pub save : Bool

pub data Sent : Type 0 where
  email webhook : Form → Submission → Sent

-- What a request can change. `hits` is the column of the rules' counters; `sent` are the messages that
-- were handed out, the latest last.
pub record Site : Type 0 where
  pub forms : List Form
  pub rules : List Rule
  pub hits : Text → ℕ
  pub db : Db
  pub tracker : Tracker
  pub sent : List Sent

pub data Response : Type 0 where
  form_not_found internal_error bad_request no_form_data invalid_email success_json : Response
  found : Text → Response

-- The messages that a form is configured for.
unfoldable pub deliver : Server → Form → Submission → List Sent
deliver s form sub =
    (if not (form.email_to == []) && s.has_notifier then email form sub ∷ [] else [])
    ++ (if not (form.webhook_url == []) && s.has_webhook then webhook form sub ∷ [] else [])

unfoldable pub effective_threshold : Server → Form → ℤ
effective_threshold s form =
    if ltb_ℤ (pos 0) form.spam_threshold
    then form.spam_threshold
    else if ltb_ℤ (pos 0) s.default_threshold
    then s.default_threshold
    else pos default_threshold

abbrev internal_fields : List Text
internal_fields = bytes "_honeypot" ∷ bytes "_redirect" ∷ bytes "_subject" ∷ []

values_of : Option (List Text) → List Text
values_of none = []
values_of (some vs) = vs

head_or_empty : List Text → Text
head_or_empty [] = []
head_or_empty (v ∷ vs) = v

-- `FormValue`: the first value, those of the body first.
unfoldable pub form_value : Request → Text → Text
unfolding values_of head_or_empty lookup
form_value r key = head_or_empty (values_of (lookup key r.post) ++ values_of (lookup key r.query))

-- The loop over the fields of the body.
unfoldable pub data_of : Assoc (List Text) → Assoc Text
unfolding mem
data_of [] = []
data_of ((key, []) ∷ post) = data_of post
data_of ((key, v ∷ vs) ∷ post) =
    let rest = data_of post in if mem key internal_fields then rest else (key, v) ∷ rest

before_comma : Text → Option (Text × Text) → Text
before_comma s none = s
before_comma s (some (a, b)) = a

host_or_all : Text → Option Text → Text
host_or_all s none = s
host_or_all s (some host) = host

unfoldable pub extract_ip : Server → Request → Text
unfolding before_comma host_or_all cut
extract_ip s r =
    if not (r.forwarded_for == [])
    then trim_space (before_comma r.forwarded_for (cut b',' r.forwarded_for))
    else if not (r.real_ip == [])
    then r.real_ip
    else host_or_all r.remote_addr (s.split_host r.remote_addr)

unfoldable pub redirect_target : Server → Request → Form → Text
redirect_target s r form =
    (redirect s.web (form_value r (bytes "_redirect")) form.redirect s.base_url).0

unfoldable pub respond_success : Request → Text → Response
respond_success r url =
    if contains r.accept (bytes "application/json") then success_json else found url

unfoldable pub increment_rule_hits : Text → (Text → ℕ) → Text → ℕ
increment_rule_hits id hits j = if j == id then hits j + 1 else hits j

-- A failure to count does not matter to the submission.
unfoldable pub count_rule_hit : Faults → Verdict → Site → Site
count_rule_hit faults v site = record site {
  hits =
      if v.is_matched && not (v.matched_rule_id == []) && not faults.count_hit
      then increment_rule_hits v.matched_rule_id site.hits
      else site.hits;
}

unfoldable pub store_signals : List Signal → List SpamSignal
store_signals [] = []
store_signals (sig ∷ signals) =
    record { check = sig.check; field = sig.field; matched = sig.matched; weight = sig.weight }
    ∷ store_signals signals

-- The row that `CreateSubmission` writes; `notified` has its default.
unfoldable pub inbox_row : ℕ → Submission → Submission
inbox_row now sub = record sub {
  read = false;
  created_at = (if sub.created_at =ℕ 0 then now else sub.created_at);
  is_held = false;
  notified = true;
  held_at = none;
}

unfoldable pub create_submission : Db → ℕ → Submission → Db × Answer {0} Unit
unfolding inbox_row
create_submission db now sub =
    if any (λ s. s.id == sub.id) db.submissions || not (mem sub.form_id db.forms)
    then (db, failed constraint)
    else (record db { submissions = db.submissions ++ inbox_row now sub ∷ [] }, done tt)

-- A statement that the disk refuses.
unfoldable pub unless_failing : Bool → Db → Db × Answer {0} Unit → Db × Answer {0} Unit
unless_failing fails db wrote = if fails then (db, failed disk) else wrote

-- A submission with its identity and nothing else.
abbrev pub blank : Text → Text → Text → ℕ → Submission
blank id form_id ip now = record {
  id = id;
  form_id = form_id;
  raw_data = [];
  ip = ip;
  read = false;
  created_at = now;
  is_held = false;
  spam_score = 0;
  held_threshold = 0;
  notified = false;
  held_at = none;
}

unfoldable pub answered : Site → Response → List Sent → Db × Answer {0} Unit → Site × Response
answered site ok out (db, done u) = (record site { db = db; sent = site.sent ++ out }, ok)
answered site ok out (db, failed e) = (record site { db = db }, internal_error)

abbrev pub accepted_submission : Server → Text → Text → Request → ℕ → Verdict → Submission
accepted_submission s id ip r now v = record (blank id r.form_id ip now) {
  raw_data = s.marshal (data_of r.post);
  spam_score = v.score;
  held_threshold = v.threshold;
}

-- The handler from the verdict on.
unfoldable pub decided :
    Server → Faults → ℕ → Text → Site → Form → Request → Text → Text → Verdict → Site × Response
unfolding answered unless_failing store_signals
decided s faults now id site form r ip url v =
    let counted = count_rule_hit faults v site in
    if v.hold
    then answered counted (respond_success r url) [] (
        unless_failing faults.save counted.db (
          create_held_submission counted.db (s.marshal (data_of r.post)) now
            (blank id r.form_id ip now) v.score v.threshold (store_signals v.signals)))
    else let sub = accepted_submission s id ip r now v in
      answered counted (respond_success r url) (deliver s form sub)
        (unless_failing faults.save counted.db (create_submission counted.db now sub))

-- `none` is a panic of the tracker.
unfoldable pub screened :
    (Site → Verdict → Site × Response)
    → Site
    → Option (Tracker × Verdict)
    → Option (Site × Response)
screened go site none = none
screened go site (some (t, v)) = some (go (record site { tracker = t }) v)

unfoldable pub handle_form :
    Server → Faults → ℕ → Text → Site → Request → Form → Option (Site × Response)
unfolding screened
handle_form s faults now id site r form =
    let ip = extract_ip s r in
    let url = redirect_target s r form in
    let fields = data_of r.post in
    if not r.parses
    then some (site, bad_request)
    else if not (form_value r (bytes "_honeypot") == [])
    then some (site, respond_success r url)
    else if length fields =ℕ 0
    then some (site, no_form_data)
    else if not (sender_valid s.platform fields)
    then some (site, invalid_email)
    else screened (λ site v. decided s faults now id site form r ip url v) site
        (decide s.platform site.tracker (record {
          form_id = r.form_id;
          fields = fields;
          ip = ip;
          rules = (if faults.list_rules then [] else site.rules);
          threshold = effective_threshold s form;
        }))

unfoldable pub find_form : Text → List Form → Option Form
find_form id [] = none
find_form id (f ∷ forms) = let rest = find_form id forms in if f.id == id then some f else rest

unfoldable pub handle_found :
    Server → Faults → ℕ → Text → Site → Request → Option Form → Option (Site × Response)
handle_found s faults now id site r none = some (site, form_not_found)
handle_found s faults now id site r (some form) = handle_form s faults now id site r form

-- `Handle`, at the time `now`, with `id` the identifier that it draws.
unfoldable pub handle : Server → Faults → ℕ → Text → Site → Request → Option (Site × Response)
unfolding handle_found
handle s faults now id site r =
    if faults.get_form
    then some (site, internal_error)
    else handle_found s faults now id site r (find_form r.form_id site.forms)
