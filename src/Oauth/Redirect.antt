-- ===== src/Oauth/Redirect.antt =====
-- internal/oauth/redirect.go: where a client may have codes delivered.
use dsforms.Common.{
  if◌then◌else◌, Bool-cases, Option-cases, All, Text, bytes, eq_sound, eq_complete, eq_iff, ◌==◌,
  mem, ◌≡◌, ◌≢◌, ◌↔◌, ◌⊎◌, inl, inr, Bool, true, false, ◌&&◌, ◌||◌, not, Option, none, some, List,
  [], ◌∷◌, arith,
}
use dsforms.Common.Web.{Url, Web}

pub data Refusal : Type 0 where
  does_not_parse not_absolute userinfo fragment insecure not_https : Refusal

unfoldable pub is_loopback : Web → Text → Bool
is_loopback w host =
    if host == bytes "localhost" then true else elim (w.loopback host) [ none ↦ false | some b ↦ b ]

-- The tests on an address that parses; `none` accepts.
unfoldable pub refusal : Web → Url → Option Refusal
unfolding is_loopback
refusal w u =
    if (u.host == []) || (u.hostname == [])
    then some not_absolute
    else if u.has_user
    then some userinfo
    else if not (u.fragment == []) || not (u.raw_fragment == [])
    then some fragment
    else if u.scheme == bytes "https"
    then none
    else if u.scheme == bytes "http"
    then (if is_loopback w u.hostname then none else some insecure)
    else some not_https

unfoldable pub validate_redirect_uri : Web → Text → Option Refusal
unfolding refusal
validate_redirect_uri w raw = elim (w.parse raw) [
  | none ↦ some does_not_parse
  | some u ↦ refusal w u
]

unfoldable pub match_redirect_uri : List Text → Text → Bool
unfolding mem
match_redirect_uri registered got = not (got == []) && mem got registered

-- An address to deliver to: a host, no user information, no fragment, and https, or http to a loopback
-- host.
pub record IsDeliverable (w : Web) (u : Url) : Type 0 where
  pub has_host : u.host ≢ []
  pub has_hostname : u.hostname ≢ []
  pub no_user : u.has_user ≡ false
  pub no_fragment : (u.fragment ≡ []) × (u.raw_fragment ≡ [])
  pub is_secure :
      (u.scheme ≡ bytes "https") ⊎ ((u.scheme ≡ bytes "http") × (is_loopback w u.hostname ≡ true))

refusal_sound : (w : Web) (u : Url) → refusal w u ≡ none → IsDeliverable w u
unfolding refusal
refusal_sound w u h = record {
  has_host = λ e. ground (arith, eq_complete u.host [] e);
  has_hostname = λ e. ground (arith, eq_complete u.hostname [] e);
  no_user = ground arith;
  no_fragment = (eq_sound u.fragment [] (ground arith), eq_sound u.raw_fragment [] (ground arith));
  is_secure = elim (Bool-cases (u.scheme == bytes "https")) [
    | inl e ↦ inl (eq_sound u.scheme _ e)
    | inr e ↦ inr (eq_sound u.scheme _ (ground arith), ground arith)
  ];
}

refusal_complete : (w : Web) (u : Url) → IsDeliverable w u → refusal w u ≡ none
unfolding refusal
refusal_complete w u d = ground (
  arith,
  d.has_host,
  d.has_hostname,
  d.no_user,
  d.no_fragment,
  d.is_secure,
  eq_iff u.host [],
  eq_iff u.hostname [],
  eq_iff u.fragment [],
  eq_iff u.raw_fragment [],
  eq_iff u.scheme (bytes "https"),
  eq_iff u.scheme (bytes "http"),
)

-- An address is accepted for registration exactly if it parses to one that codes may be delivered to:
-- a host without user information and fragment, over https, or over http to a loopback host.
validate_redirect_uri_iff :
    (w : Web) (raw : Text)
    → (validate_redirect_uri w raw ≡ none)
      ↔ ((u : Url) × (w.parse raw ≡ some u) × IsDeliverable w u)
unfolding validate_redirect_uri
validate_redirect_uri_iff w raw = (
  λ h. elim (Option-cases (w.parse raw)) [
    | inl e ↦ ground arith
    | inr (u, e) ↦ (u, e, refusal_sound w u (ground arith))
  ],
  λ (u, e, d). rw (e, validate_redirect_uri) (refusal_complete w u d),
)

-- When every registered address was validated, an address that a request is matched by was validated
-- too, and it is not empty.
match_redirect_uri-valid :
    (w : Web) (registered : List Text) (got : Text)
    → All (λ r. validate_redirect_uri w r ≡ none) registered
    → match_redirect_uri registered got ≡ true
    → (got ≢ []) × (validate_redirect_uri w got ≡ none)
unfolding match_redirect_uri mem
match_redirect_uri-valid w [] got valid h = ground arith
match_redirect_uri-valid w (r ∷ rs) got valid h = elim (Bool-cases (got == r)) [
  | inl e ↦ (λ empty. ground (arith, eq_complete got [] empty), rw (eq_sound got r e) valid.0)
  | inr e ↦ match_redirect_uri-valid w rs got valid.1 (ground arith)
]
