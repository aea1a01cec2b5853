-- ===== src/Screen/Rules.antt =====
-- internal/screen/internal/rules/rules.go: the operator's rules. Kinds and types are the strings that
-- the table holds, so an unknown one can occur.
pub mod Matching
use dsforms.Common.{
  ℕ, ◌+◌, ◌=ℕ◌, ltb, leb, if◌then◌else◌, length, any, all, Text, bytes, ◌==◌, has_suffix, contains,
  trim_prefix, after_last, split, trim_space, ascii_lower, Bool, true, false, ◌&&◌, ◌||◌, not,
  Option, none, some, List, [], ◌∷◌,
}
use dsforms.Screen.Platform.{Platform}
use dsforms.Screen.Addr.{sender_none, sender_one, sender_ambiguous, sender_address, canonical}

abbrev pub kind_block : Text
kind_block = bytes "block"

abbrev pub kind_allow : Text
kind_allow = bytes "allow"

abbrev pub type_email : Text
type_email = bytes "email"

abbrev pub type_domain : Text
type_domain = bytes "domain"

abbrev pub type_ip : Text
type_ip = bytes "ip"

abbrev pub type_cidr : Text
type_cidr = bytes "cidr"

abbrev pub type_keyword : Text
type_keyword = bytes "keyword"

pub record Rule : Type 0 where
  pub id : Text
  pub kind : Text
  pub type : Text
  pub value : Text

pub data Problem : Type 0 where
  value_required bad_email bad_domain bad_ip bad_cidr short_keyword unknown_type : Problem

pub data Checked : Type 0 where
  normal : Text → Checked
  refused : Problem → Checked

abbrev or_refused : Problem → Option Text → Checked
or_refused why none = refused why
or_refused why (some t) = normal t

-- A byte of a label at position `i` of a label of `n` bytes.
label_byte : ℕ → ℕ → ℕ → Bool
label_byte n i c =
    (leb b'a' c && leb c b'z')
    || (leb b'0' c && leb c b'9')
    || ((c =ℕ b'-') && not (i =ℕ 0) && not (i + 1 =ℕ n))

label_from : ℕ → ℕ → Text → Bool
unfolding label_byte
label_from n i [] = true
label_from n i (c ∷ s) = label_byte n i c && label_from n (i + 1) s

is_label : Text → Bool
unfolding label_from
is_label label = not (label == []) && leb (length label) 63 && label_from (length label) 0 label

unfoldable pub is_hostname : Text → Bool
unfolding is_label
is_hostname s = leb (length s) 253 && contains s (bytes ".") && all is_label (split b'.' s)

unfoldable pub domain_of : Text → Text
unfolding trim_prefix ascii_lower
domain_of v = ascii_lower (trim_prefix (trim_prefix v (bytes "@")) (bytes "."))

unfoldable pub validate_trimmed : Platform → Text → Text → Checked
unfolding canonical is_hostname domain_of
validate_trimmed p type v =
    if type == type_email
    then or_refused bad_email (canonical p v)
    else if type == type_domain
    then (if is_hostname (domain_of v) then normal (domain_of v) else refused bad_domain)
    else if type == type_ip
    then or_refused bad_ip (p.parse_ip v)
    else if type == type_cidr
    then or_refused bad_cidr (p.parse_cidr v)
    else if type == type_keyword
    then (if ltb (length (p.to_lower v)) 2 then refused short_keyword else normal (p.to_lower v))
    else refused unknown_type

unfoldable pub validate : Platform → Text → Text → Checked
unfolding validate_trimmed trim_space
validate p type value =
    let v = trim_space value in
    if v == [] then refused value_required else validate_trimmed p type v

-- `host == value || strings.HasSuffix(host, "."+value)`
unfoldable pub in_domain : Text → Text → Bool
unfolding has_suffix
in_domain value host = (host == value) || has_suffix host (b'.' ∷ value)

-- One address against a domain; an address with no `@` is passed over.
unfoldable pub address_in : Text → Text → Bool
unfolding in_domain after_last
address_in value addr = elim (after_last b'@' addr) [
  | none ↦ false
  | some host ↦ in_domain value host
]

-- The address of the client against the rules of type ip and cidr.
unfoldable pub ip_matches : Platform → Text → Text → Bool
ip_matches p value ip =
    if ip == [] then false else elim (p.parse_ip ip) [ none ↦ false | some shown ↦ shown == value ]

unfoldable pub cidr_matches : Platform → Text → Text → Bool
cidr_matches p value ip =
    if ip == []
    then false
    else elim (p.parse_ip ip) [ none ↦ false | some shown ↦ p.network_contains value ip ]

unfoldable pub matches : Platform → Rule → List Text → Text → Bool
unfolding address_in ip_matches cidr_matches
matches p r addrs ip =
    if r.type == type_email
    then any (λ a. a == r.value) addrs
    else if r.type == type_domain
    then any (address_in r.value) addrs
    else if r.type == type_ip
    then ip_matches p r.value ip
    else if r.type == type_cidr
    then cidr_matches p r.value ip
    else false

unfoldable pub all_addresses : Platform → List (Text × Text) → List Text
unfolding canonical
all_addresses p [] = []
all_addresses p ((k, v) ∷ fs) =
    let out = all_addresses p fs in elim (canonical p v) [ none ↦ out | some a ↦ a ∷ out ]

unfoldable pub sender_addresses : Platform → List (Text × Text) → List Text
unfolding sender_address canonical
sender_addresses p fs = elim (sender_address fs).1 [
  | sender_none ↦ []
  | sender_one ↦ elim (canonical p (sender_address fs).0) [ none ↦ [] | some a ↦ a ∷ [] ]
  | sender_ambiguous ↦ []
]

-- The inner loop of `Match`: the first rule of a kind, keywords apart, that applies.
unfoldable pub match_kind : Platform → Text → List Text → Text → List Rule → Option Rule
unfolding matches
match_kind p kind addrs ip [] = none
match_kind p kind addrs ip (r ∷ rules) =
    let later = match_kind p kind addrs ip rules in
    if not (r.kind == kind) || (r.type == type_keyword)
    then later
    else if matches p r addrs ip
    then some r
    else later

unfoldable pub match : Platform → List Rule → List (Text × Text) → Text → Option Rule
unfolding match_kind all_addresses sender_addresses
match p rules fs ip = elim (match_kind p kind_allow (sender_addresses p fs) ip rules) [
  | none ↦ match_kind p kind_block (all_addresses p fs) ip rules
  | some r ↦ some r
]

unfoldable pub keywords : List Rule → List Text
unfolding trim_space
keywords [] = []
keywords (r ∷ rules) =
    let out = keywords rules in
    if not (r.kind == kind_block) || not (r.type == type_keyword)
    then out
    else if trim_space r.value == []
    then out
    else r.value ∷ out
