-- ===== src/Oauth/Examples.antt =====
-- internal/oauth: proof keys and redirect addresses on concrete values.
use dsforms.Common.{
  ◌+◌, ◌-◌, ◌≤◌, if◌then◌else◌, length, Text, bytes, ◌==◌, has_prefix, contains, ◌≡◌, refl, ap, ◌≢◌,
  ◌↔◌, ◌⊎◌, true, false, Option, none, some, [], ◌∷◌, ◌++◌, arith,
}
use dsforms.Common.Int.{ℤ, pos, negsuc}
use dsforms.Oauth.Authorize.{
  AuthorizeRequest, Codec, sign, verify, consent_ttl, parse_authorize_request, same_resource,
  unsupported_response_type,
}
use dsforms.Oauth.Authorize.Encoding.{told}
use dsforms.Oauth.Authorize.Signed.{
  IsCodec, Collision, verify-sign_sound, parse_authorize_request_iff,
}
use dsforms.Common.Web.{Url, Web}
use dsforms.Oauth.Pkce.{valid_challenge}

abbrev verifier : Text
verifier = bytes "aaaaaaaaaabbbbbbbbbbccccccccccddddddddddeee"

abbrev digest : Text → Text
digest v = verifier

abbrev callback : Text
callback = bytes "http://127.0.0.1:9/cb"

abbrev callback_url : Url
callback_url = record {
  scheme = bytes "http";
  host = bytes "127.0.0.1:9";
  hostname = bytes "127.0.0.1";
  port = bytes "9";
  path = bytes "/cb";
  fragment = [];
  raw_fragment = [];
  has_user = false;
}

abbrev web : Web
web = record {
  parse = λ raw. if raw == callback then some callback_url else none;
  clean = λ p. p;
  to_lower = λ t. t;
  loopback = λ h. if h == bytes "127.0.0.1" then some true else none;
}

abbrev parse_code : Text → Option ℤ
parse_code [] = none
parse_code (c ∷ s) = some (pos (c - 100))

abbrev format_code : ℤ → Text
format_code (pos n) = (n + 100) ∷ []
format_code (negsuc n) = bytes "-"

abbrev codec : Codec
codec = record {
  hmac = λ key m. key ++ m;
  hex = λ t. t;
  unhex = some;
  format_int = format_code;
  parse_int = parse_code;
}

codec-IsCodec : IsCodec codec
unfolding contains has_prefix
codec-IsCodec = record {
  parse-format = λ n h. ap (λ k. some (pos k)) (omega arith);
  no_dot = λ n. ground arith;
  unhex-hex = λ t. refl;
}

abbrev asked : AuthorizeRequest
asked = record {
  client_id = bytes "app";
  redirect_uri = callback;
  state = bytes "s";
  code_challenge = verifier;
  scopes = [];
  resource = bytes "https://forms.example";
}

abbrev swapped : AuthorizeRequest
swapped = record asked { redirect_uri = bytes "https://evil.example" }

verify-sign_sound_example :
    (1500 ≤ 1000 + consent_ttl
      → verify codec
          (bytes "k")
          1500
          (sign codec (bytes "k") 1000 (bytes "ann") asked)
          (bytes "ann")
          asked
        ≡ true)
    × (verify codec
            (bytes "k")
            1500
            (sign codec (bytes "k") 1000 (bytes "ann") asked)
            (bytes "ann")
            swapped
          ≡ true
        → (1500 ≤ 1000 + consent_ttl)
          × ((told (bytes "ann") asked ≡ told (bytes "ann") swapped) ⊎ Collision codec (bytes "k")))
verify-sign_sound_example =
    verify-sign_sound codec (bytes "k") 1000 1500 (bytes "ann") (bytes "ann") asked swapped
      codec-IsCodec (omega arith) refl
      (omega arith, (omega arith, (omega arith, (omega arith, (omega arith, (omega arith, tt))))))
      (omega arith, (omega arith, (omega arith, (omega arith, (omega arith, (omega arith, tt))))))

abbrev query : Text → Text
query name =
    if name == bytes "response_type"
    then bytes "token"
    else if name == bytes "code_challenge_method"
    then bytes "S256"
    else bytes "x"

parse_authorize_request_iff_example :
    (((parse_authorize_request query (bytes "r")).1 ≡ none) ↔ (
      (query (bytes "response_type") ≡ bytes "code")
      × (length (query (bytes "state")) ≤ 1024)
      × (query (bytes "code_challenge_method") ≡ bytes "S256")
      × (valid_challenge (query (bytes "code_challenge")) ≡ true)
      × ((query (bytes "resource") ≡ [])
          ⊎ (same_resource (query (bytes "resource")) (bytes "r") ≡ true))))
    × ((parse_authorize_request query (bytes "r")).1 ≢ some unsupported_response_type
        → length (parse_authorize_request query (bytes "r")).0.state ≤ 1024)
parse_authorize_request_iff_example = parse_authorize_request_iff query (bytes "r")
