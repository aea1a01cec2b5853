-- ===== src/Oauth/Authorize.antt =====
-- internal/oauth/authorize.go: authorization requests, and the signature on the consent form. The
-- libraries' HMAC, hexadecimal and decimal numbers are parameters; `url.Values.Get` is a function.
pub mod Encoding
pub mod Signed
use dsforms.Common.{
  ℕ, zero, suc, ◌+◌, ◌-◌, ◌/◌, ◌%◌, ◌^◌, ◌=ℕ◌, ltb, if◌then◌else◌, length, Text, bytes, ◌==◌,
  trim_suffix, cut, fields, Bool, false, ◌&&◌, not, Option, none, some, List, [], ◌∷◌, ◌++◌,
}
use dsforms.Common.Int.{ℤ, pos, negsuc, ltb_ℤ}
use dsforms.Oauth.Pkce.{valid_challenge}

abbrev pub max_state_len : ℕ
max_state_len = 1024

-- In seconds.
abbrev pub consent_ttl : ℕ
consent_ttl = 600

pub record AuthorizeRequest : Type 0 where
  pub client_id : Text
  pub redirect_uri : Text
  pub state : Text
  pub code_challenge : Text
  pub scopes : List Text
  pub resource : Text

pub data Complaint : Type 0 where
  unsupported_response_type state_too_long bad_challenge_method bad_challenge invalid_target :
      Complaint

unfoldable pub same_resource : Text → Text → Bool
unfolding trim_suffix
same_resource a b = trim_suffix a (bytes "/") == trim_suffix b (bytes "/")

abbrev pub read_request : (Text → Text) → Text → AuthorizeRequest
read_request get resource = record {
  client_id = get (bytes "client_id");
  redirect_uri = get (bytes "redirect_uri");
  state = get (bytes "state");
  code_challenge = get (bytes "code_challenge");
  scopes = fields (get (bytes "scope"));
  resource = resource;
}

-- The request, and the complaint that is sent back to the client.
unfoldable pub parse_authorize_request : (Text → Text) → Text → AuthorizeRequest × Option Complaint
unfolding valid_challenge same_resource fields
parse_authorize_request get resource =
    let req = read_request get resource in
    if not (get (bytes "response_type") == bytes "code")
    then (req, some unsupported_response_type)
    else if ltb max_state_len (length req.state)
    then (record req { state = [] }, some state_too_long)
    else if not (get (bytes "code_challenge_method") == bytes "S256")
    then (req, some bad_challenge_method)
    else if not (valid_challenge req.code_challenge)
    then (req, some bad_challenge)
    else if not (get (bytes "resource") == [])
        && not (same_resource (get (bytes "resource")) resource)
    then (req, some invalid_target)
    else (req, none)

-- `hmac.New(sha256.New, key)` summed over a message, the package hex, `FormatInt` and `ParseInt`.
pub record Codec : Type 0 where
  pub hmac : Text → Text → Text
  pub hex : Text → Text
  pub unhex : Text → Option Text
  pub format_int : ℤ → Text
  pub parse_int : Text → Option ℤ

-- The lowest `k` bytes of a number, the highest first.
unfoldable pub big_endian : ℕ → ℕ → Text
big_endian zero n = []
big_endian (suc k) n = big_endian k (n / 256) ++ n % 256 ∷ []

-- `uint64(exp)`
unfoldable pub to_uint64 : ℤ → ℕ
to_uint64 (pos n) = n % 2 ^ 64
to_uint64 (negsuc n) = 2 ^ 64 - 1 - n % 2 ^ 64

unfoldable pub prefixed : List Text → Text
unfolding big_endian
prefixed [] = []
prefixed (f ∷ fs) = big_endian 8 (length f) ++ (f ++ prefixed fs)

-- What `mac` sums.
unfoldable pub message : ℤ → Text → AuthorizeRequest → Text
unfolding prefixed to_uint64
message exp user req =
    big_endian 8 (to_uint64 exp)
    ++ prefixed (
        user ∷ req.client_id ∷ req.redirect_uri ∷ req.state ∷ req.code_challenge ∷ req.resource
        ∷ [])

unfoldable pub consent_key : Codec → Text → Text
consent_key c secret = c.hmac secret (bytes "dsforms oauth consent v1")

unfoldable pub sign : Codec → Text → ℕ → Text → AuthorizeRequest → Text
unfolding message
sign c key now user req =
    if length key =ℕ 0
    then []
    else let exp = pos (now + consent_ttl) in
      c.format_int exp ++ (bytes "." ++ c.hex (c.hmac key (message exp user req)))

-- The tests of `Verify` on an expiry that parses.
unfoldable pub verify_at : Codec → Text → ℕ → Text → AuthorizeRequest → ℤ → Text → Bool
unfolding message
verify_at c key now user req exp mac_hex =
    if ltb_ℤ exp (pos now) then false else elim (c.unhex mac_hex) [
      | none ↦ false
      | some got ↦ got == c.hmac key (message exp user req)
    ]

unfoldable pub verify : Codec → Text → ℕ → Text → Text → AuthorizeRequest → Bool
unfolding verify_at cut
verify c key now sig user req = if length key =ℕ 0 then false else elim (cut b'.' sig) [
  | none ↦ false
  | some (exp_str, mac_hex) ↦ elim (c.parse_int exp_str) [
    | none ↦ false
    | some exp ↦ verify_at c key now user req exp mac_hex
  ]
]

abbrev posted : (Text → Text) → AuthorizeRequest
posted form = record {
  client_id = form (bytes "client_id");
  redirect_uri = form (bytes "redirect_uri");
  state = form (bytes "state");
  code_challenge = form (bytes "code_challenge");
  scopes = [];
  resource = form (bytes "resource");
}

unfoldable pub verify_form : Codec → Text → ℕ → (Text → Text) → Text → Option AuthorizeRequest
unfolding verify
verify_form c key now form user =
    if not (verify c key now (form (bytes "consent")) user (posted form))
    then none
    else some (posted form)
