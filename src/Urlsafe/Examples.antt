-- ===== src/Urlsafe/Examples.antt =====
-- internal/urlsafe: the destinations on concrete addresses.
use dsforms.Common.{
  if◌then◌else◌, Text, bytes, ◌==◌, has_prefix, ascii_lower, ◌≡◌, refl, ◌≢◌, true, false, Option,
  none, some, [],
}
use dsforms.Common.Web.{Url, Web}
use dsforms.Urlsafe.{same_origin, origin, relative_path, configured_redirect, fallback, redirect}
use dsforms.Urlsafe.Destinations.{redirect-IsVouched, IsVouched}

abbrev thanks : Text
thanks = bytes "https://shop.example/thanks"

abbrev with_port : Text
with_port = bytes "https://Shop.example:443"

abbrev local : Text
local = bytes "/thanks"

abbrev evil : Text
evil = bytes "//evil.example"

abbrev url : Text → Text → Text → Text → Url
url scheme host port path = record {
  scheme = scheme;
  host = host;
  hostname = host;
  port = port;
  path = path;
  fragment = [];
  raw_fragment = [];
  has_user = false;
}

abbrev parse : Text → Option Url
parse raw =
    if raw == thanks
    then some (url (bytes "https") (bytes "shop.example") [] (bytes "/thanks"))
    else if raw == with_port
    then some (url (bytes "https") (bytes "Shop.example") (bytes "443") [])
    else if raw == local
    then some (url [] [] [] local)
    else if raw == evil
    then some (url [] (bytes "evil.example") [] [])
    else none

abbrev web : Web
web = record { parse = parse; clean = λ p. p; to_lower = ascii_lower; loopback = λ h. none }

redirect-IsVouched_example :
    IsVouched web thanks [] (redirect web evil thanks []).0
    × ((redirect web evil thanks []).1 ≡ false → evil ≢ [] → (redirect web evil thanks []).0 ≡ evil)
redirect-IsVouched_example = redirect-IsVouched web evil thanks []

refused : redirect web evil thanks [] ≡ (thanks, true)
unfolding redirect relative_path same_origin origin fallback configured_redirect ◌==◌ has_prefix
    ascii_lower
refused = refl
