-- ===== src/Handler/Submit/Examples.antt =====
-- internal/handler/submit.go: one request, handled.
use dsforms.Common.{
  leb, bytes, lower_byte, ascii_lower, ◌≡◌, refl, Bool, true, false, ◌&&◌, ◌||◌, none, [], ◌∷◌,
  arith,
}
use dsforms.Common.Int.{pos}
use dsforms.Common.Web.{Web}
use dsforms.Screen.Platform.{Platform}
use dsforms.Screen.Decide.{Verdict}
use dsforms.Repeat.{Tracker}
use dsforms.Repeat.Bounded.{IsValid, keys}
use dsforms.Handler.Submit.{Form, Request, Server, Faults, Site, decided, find_form, handle}
use dsforms.Handler.Submit.Handled.{Handled, HandledFor, handle-Handled, decided-alike}

-- A platform on which every text is ASCII, and where no address parses.
abbrev ascii : Platform
ascii = record {
  parse_address = λ s. none;
  parse_ip = λ s. none;
  parse_cidr = λ s. none;
  network_contains = λ net ip. false;
  to_lower = ascii_lower;
  runes = λ s. s;
  of_runes = λ s. s;
  is_upper = λ c. leb b'A' c && leb c b'Z';
  is_lower = λ c. leb b'a' c && leb c b'z';
  is_letter = λ c. (leb b'A' c && leb c b'Z') || (leb b'a' c && leb c b'z');
  is_latin = λ c. true;
  rune_lower = lower_byte;
}

abbrev no_web : Web
no_web = record { parse = λ s. none; clean = λ p. p; to_lower = ascii_lower; loopback = λ h. none }

abbrev server : Server
server = record {
  platform = ascii;
  web = no_web;
  split_host = λ s. none;
  marshal = λ fields. bytes "{}";
  base_url = [];
  default_threshold = pos 6;
  has_notifier = true;
  has_webhook = false;
}

abbrev contact : Form
contact = record {
  id = bytes "f";
  email_to = bytes "ann@works.example";
  redirect = [];
  webhook_url = [];
  spam_threshold = pos 0;
}

abbrev fresh_tracker : Tracker
fresh_tracker = record { counts = []; order = []; max_entries = 10 }

abbrev site : Site
site = record {
  forms = contact ∷ [];
  rules = [];
  hits = λ id. 0;
  db = record { forms = bytes "f" ∷ []; submissions = []; signals = [] };
  tracker = fresh_tracker;
  sent = [];
}

abbrev posted : Request
posted = record {
  form_id = bytes "f";
  parses = true;
  post = (bytes "message", bytes "hello" ∷ []) ∷ [];
  query = [];
  accept = [];
  forwarded_for = [];
  real_ip = bytes "10.0.0.1";
  remote_addr = [];
}

abbrev sound : Faults
sound = record { get_form = false; list_rules = false; count_hit = false; save = false }

fresh_tracker-IsValid : IsValid fresh_tracker
unfolding keys
fresh_tracker-IsValid = record {
  table = tt;
  same_order = refl;
  bounded = omega arith;
  room = omega arith;
}

handle-Handled_example :
    Handled
      (HandledFor server sound (bytes "1") site posted (find_form (bytes "f") site.forms))
      (handle server sound 7 (bytes "1") site posted)
handle-Handled_example = handle-Handled server sound 7 (bytes "1") site posted fresh_tracker-IsValid

abbrev verdict : Bool → Verdict
verdict hold = record {
  hold = hold;
  score = 0;
  signals = [];
  threshold = 6;
  is_matched = false;
  matched_rule_id = [];
}

decided-alike_example :
    (decided server sound 7 (bytes "1") site contact posted [] [] (verdict true)).1
    ≡ (decided server sound 7 (bytes "1") site contact posted [] [] (verdict false)).1
decided-alike_example =
    decided-alike server sound 7 (bytes "1") site contact posted [] [] (verdict true)
      (verdict false)
