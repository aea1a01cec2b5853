-- ===== src/Screen/Examples.antt =====
-- The screening decision at a concrete platform and concrete submissions.
use dsforms.Common.{
  leb, if◌then◌else◌, keep, any, Text, bytes, ◌==◌, contains, lower_byte, ascii_lower, ◌≡◌, refl,
  ◌⊎◌, true, false, ◌&&◌, ◌||◌, none, some, List, [], ◌∷◌, reverse,
}
use dsforms.Common.Int.{pos}
use mathlib.Core.List.{Permᴰ, Memᴰ}
use dsforms.Screen.Platform.{Platform}
use dsforms.Screen.Addr.{sender_address, canonical}
use dsforms.Screen.Addr.Sender.{claims, choose, sender_address-Permᴰ}
use dsforms.Screen.Rules
use dsforms.Screen.Rules.{
  Rule, kind_allow, kind_block, type_email, type_domain, address_in, sender_addresses,
  all_addresses,
}
use dsforms.Screen.Rules.Matching.{match-Decides, match-allow, Decides, applies}
use dsforms.Screen.Score.{detail, is_spam}
use dsforms.Screen.Decide.{Input, decide_repeated}
use dsforms.Screen.Decide.Verdicts.{
  IsExplained, Outcome, decide_repeated-IsExplained, decide_repeated-Outcome,
}

-- A platform on which every text is ASCII, and no address needs parsing.
abbrev plain : Platform
plain = record {
  parse_address = λ s. none;
  parse_ip = λ s. if contains s (bytes ".") then some s else none;
  parse_cidr = λ s. if contains s (bytes "/") then some s else none;
  network_contains = λ net ip. false;
  to_lower = ascii_lower;
  runes = λ s. s;
  of_runes = λ s. s;
  is_upper = λ c. leb b'A' c && leb c b'Z';
  is_lower = λ c. leb b'a' c && leb c b'z';
  is_letter = λ c. (leb b'A' c && leb c b'Z') || (leb b'a' c && leb c b'z');
  is_latin = λ c. true;
  rune_lower = lower_byte;
}

abbrev letter : List (Text × Text)
letter =
    (bytes "message", bytes "cheap SEO service, see http://a.example and http://b.example")
    ∷ (bytes "Email", bytes " Ann@Works.example ")
    ∷ []

abbrev ann_allowed : Rule
ann_allowed = record {
  id = bytes "r1";
  kind = kind_allow;
  type = type_domain;
  value = bytes "works.example";
}

abbrev letter_input : List Rule → Input
letter_input rules = record {
  form_id = bytes "f";
  fields = letter;
  ip = bytes "10.0.0.1";
  rules = rules;
  threshold = pos 6;
}

letter-is_spam : ((detail plain letter).0 ≡ 7) × (is_spam plain letter ≡ true)
unfolding is_spam detail contains ascii_lower ◌==◌
letter-is_spam = (refl, refl)

letter_verdicts :
    ((decide_repeated plain (letter_input []) false).hold ≡ true)
    × ((decide_repeated plain (letter_input (ann_allowed ∷ [])) true).hold ≡ false)
    × (Rules.match plain (ann_allowed ∷ []) letter (bytes "10.0.0.1") ≡ some ann_allowed)
    × (canonical plain (bytes " Ann@Works.example ") ≡ some (bytes "ann@works.example"))
unfolding decide_repeated Rules.match canonical ◌==◌ contains ascii_lower
letter_verdicts = (refl, refl, refl, refl)

decide_repeated-IsExplained_example : IsExplained (decide_repeated plain (letter_input []) true)
decide_repeated-IsExplained_example = decide_repeated-IsExplained plain (letter_input []) true

decide_repeated-Outcome_example :
    Outcome plain
      (letter_input (ann_allowed ∷ []))
      true
      (decide_repeated plain (letter_input (ann_allowed ∷ [])) true)
      (Rules.match plain (ann_allowed ∷ []) letter (bytes "10.0.0.1"))
decide_repeated-Outcome_example =
    decide_repeated-Outcome plain (letter_input (ann_allowed ∷ [])) true

match-Decides_example :
    ((r : Rule)
      → Rules.match plain (ann_allowed ∷ []) letter (bytes "10.0.0.1") ≡ some r
      → Memᴰ r (ann_allowed ∷ []) × Decides plain (ann_allowed ∷ []) letter (bytes "10.0.0.1") r)
    × (Rules.match plain (ann_allowed ∷ []) letter (bytes "10.0.0.1") ≡ none
        → (any
              (applies plain kind_allow (sender_addresses plain letter) (bytes "10.0.0.1"))
              (ann_allowed ∷ [])
            ≡ false)
          × (any
                (applies plain kind_block (all_addresses plain letter) (bytes "10.0.0.1"))
                (ann_allowed ∷ [])
              ≡ false))
match-Decides_example = match-Decides plain (ann_allowed ∷ []) letter (bytes "10.0.0.1")

ann_is_an_allow :
    ((ann_allowed.kind == kind_allow) ≡ true)
    × ((ann_allowed.type == type_email || ann_allowed.type == type_domain) ≡ true)
unfolding ◌==◌
ann_is_an_allow = (refl, refl)

match-allow_example :
    (f : Text × Text) × (a : Text) × (keep claims letter ≡ f ∷ [])
    × (canonical plain f.1 ≡ some a)
    × ((a ≡ bytes "works.example") ⊎ (address_in (bytes "works.example") a ≡ true))
match-allow_example =
    match-allow plain (ann_allowed ∷ []) letter (bytes "10.0.0.1") ann_allowed letter_verdicts.2
      ann_is_an_allow.0 ann_is_an_allow.1

abbrev letter_backwards : List (Text × Text)
letter_backwards = reverse letter

sender_address-Permᴰ_example :
    (sender_address letter ≡ sender_address letter_backwards)
    × (sender_address letter ≡ choose (keep claims letter))
sender_address-Permᴰ_example = sender_address-Permᴰ letter letter_backwards (Permᴰ.swap refl refl)
