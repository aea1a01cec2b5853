-- ===== src/Urlsafe.antt =====
-- internal/urlsafe/urlsafe.go: which addresses a browser may be sent to.
pub mod Origins
pub mod Destinations
mod Examples
use dsforms.Common.{
  if◌then◌else◌, Text, bytes, ◌==◌, has_prefix, contains, Bool, true, false, ◌&&◌, ◌||◌, not,
  Option, none, some, [], ◌∷◌, ◌++◌,
}
use dsforms.Common.Web.{Url, Web}

abbrev pub default_redirect : Text
default_redirect = bytes "/success"

unfoldable pub is_default_port : Text → Text → Bool
is_default_port scheme port =
    ((scheme == bytes "http") && (port == bytes "80"))
    || ((scheme == bytes "https") && (port == bytes "443"))

-- What is put after the host: nothing for a port that is missing or the scheme's own.
unfoldable pub port_suffix : Text → Text → Text
unfolding is_default_port
port_suffix scheme port =
    if not (port == []) && not (is_default_port scheme port) then b':' ∷ port else []

-- The tests of `origin` on an address that parses.
unfoldable pub is_absolute : Web → Url → Bool
is_absolute w u =
    not ((u.host == []) || u.has_user)
    && ((u.scheme == bytes "http") || (u.scheme == bytes "https"))
    && not (w.to_lower u.hostname == [])

unfoldable pub written : Web → Url → Text
unfolding port_suffix
written w u = u.scheme ++ (bytes "://" ++ (w.to_lower u.hostname ++ port_suffix u.scheme u.port))

unfoldable pub origin_of : Web → Option Url → Option Text
unfolding is_absolute written
origin_of w none = none
origin_of w (some u) = if is_absolute w u then some (written w u) else none

unfoldable pub origin : Web → Text → Option Text
unfolding origin_of
origin w raw = origin_of w (w.parse raw)

agree : Option Text → Option Text → Bool
agree none o = false
agree (some a) none = false
agree (some a) (some b) = a == b

unfoldable pub same_origin : Web → Text → Text → Bool
unfolding origin agree
same_origin w raw anchor = agree (origin w raw) (origin w anchor)

-- The tests of `RelativePath` on an address that parses.
unfoldable pub is_local : Web → Url → Bool
is_local w u =
    not (not (u.scheme == []) || not (u.host == []) || u.has_user)
    && not (contains u.path (b'\\' ∷ []))
    && (has_prefix (w.clean u.path) (bytes "/") && not (has_prefix (w.clean u.path) (bytes "//")))

unfoldable pub relative_path : Web → Text → Bool
unfolding is_local
relative_path w raw =
    if not (has_prefix raw (bytes "/"))
    then false
    else if has_prefix raw (bytes "//")
    then false
    else elim (w.parse raw) [ none ↦ false | some u ↦ is_local w u ]

unfoldable pub http_scheme : Web → Text → Bool
http_scheme w raw = elim (w.parse raw) [
  | none ↦ false
  | some u ↦ (u.scheme == bytes "http") || (u.scheme == bytes "https")
]

unfoldable pub configured_redirect : Web → Text → Bool
unfolding relative_path origin
configured_redirect w raw =
    if (raw == []) || relative_path w raw
    then true
    else elim (origin w raw) [ none ↦ false | some o ↦ true ]

unfoldable pub fallback : Web → Text → Text
unfolding configured_redirect
fallback w configured =
    if (configured == []) || not (configured_redirect w configured)
    then default_redirect
    else configured

-- The destination, and whether the requested one was refused.
unfoldable pub redirect : Web → Text → Text → Text → Text × Bool
unfolding fallback relative_path same_origin
redirect w requested configured base =
    if requested == []
    then (fallback w configured, false)
    else if relative_path w requested
        || same_origin w requested configured
        || same_origin w requested base
    then (requested, false)
    else (fallback w configured, true)

-- `Origin`, for log lines.
unfoldable pub shown_origin : Web → Text → Text
unfolding origin
shown_origin w raw = elim (origin w raw) [
  | some o ↦ o
  | none ↦ elim (w.parse raw) [
    | none ↦ bytes "(no origin)"
    | some u ↦
        if (u.scheme == []) && not (u.host == [])
        then bytes "//" ++ w.to_lower u.hostname
        else if not (u.scheme == [])
        then u.scheme ++ bytes ":"
        else bytes "(no origin)"
  ]
]
