-- ===== src/Urlsafe/Destinations.antt =====
-- internal/urlsafe/urlsafe.go: every destination is one that an operator vouched for.
use dsforms.Common.{
  if◌then◌else◌, Bool-cases, Option-cases, Text, bytes, eq_sound, eq_refl, eq_complete, ◌==◌,
  has_prefix, contains, ◌≡◌, refl, sym, ap, ◌∙◌, ◌≢◌, ◌⊎◌, inl, inr, true, false, some, [], ◌∷◌,
  arith,
}
use dsforms.Common.Web.{Url, Web}
use dsforms.Urlsafe.Origins.{IsPlain, written_inj, schemes}
use dsforms.Urlsafe.{
  is_absolute, written, origin_of, port_suffix, is_default_port, same_origin, origin, agree,
  relative_path, is_local, configured_redirect, fallback, redirect, default_redirect,
}

-- A path on this server: it starts with one slash only, parses without scheme, host and user information
-- to a path with no backslash, and that path, cleaned, starts with one slash only too.
abbrev pub IsPathHere : Web → Text → Type 0
IsPathHere w to =
    (has_prefix to (bytes "/") ≡ true)
    × (has_prefix to (bytes "//") ≡ false)
    × (u : Url) × (w.parse to ≡ some u)
    × (u.scheme ≡ [])
    × (u.host ≡ [])
    × (u.has_user ≡ false)
    × (contains u.path (b'\\' ∷ []) ≡ false)
    × (has_prefix (w.clean u.path) (bytes "/") ≡ true)
    × (has_prefix (w.clean u.path) (bytes "//") ≡ false)

-- An address over http or https with a host and without user information.
abbrev pub IsSite : Web → Url → Type 0
IsSite w u =
    ((u.scheme ≡ bytes "http") ⊎ (u.scheme ≡ bytes "https"))
    × (w.to_lower u.hostname ≢ [])
    × (u.has_user ≡ false)

-- The port that a connection uses.
abbrev pub port_used : Text → Text → Text
port_used scheme port =
    if port == [] then (if scheme == bytes "http" then bytes "80" else bytes "443") else port

-- Both parse to such addresses, and, where neither host holds a colon, with equal schemes, hosts and
-- ports.
abbrev pub SharesSite : Web → Text → Text → Type 0
SharesSite w to anchor =
    (u : Url) × (v : Url) × (w.parse to ≡ some u)
    × (w.parse anchor ≡ some v)
    × IsSite w u
    × IsSite w v
    × (IsPlain (w.to_lower u.hostname)
        → IsPlain (w.to_lower v.hostname)
        → (u.scheme ≡ v.scheme)
          × (w.to_lower u.hostname ≡ w.to_lower v.hostname)
          × (port_used u.scheme u.port ≡ port_used v.scheme v.port))

-- Where a visitor may be sent: the built-in page, a path on this server, or the site of one of the two
-- addresses that the operator set.
abbrev pub IsVouched : Web → Text → Text → Text → Type 0
IsVouched w configured base to =
    (to ≡ default_redirect) ⊎ IsPathHere w to ⊎ SharesSite w to configured ⊎ SharesSite w to base

relative_path_sound : (w : Web) (raw : Text) → relative_path w raw ≡ true → IsPathHere w raw
unfolding relative_path is_local
relative_path_sound w raw h = elim (Option-cases (w.parse raw)) [
  | inl none_there ↦ ground arith
  | inr (u, e) ↦ (
    ground arith,
    ground arith,
    u,
    e,
    eq_sound u.scheme [] (ground arith),
    eq_sound u.host [] (ground arith),
    ground arith,
    ground arith,
    ground arith,
    ground arith,
  )
]

absolute-IsSite : (w : Web) (u : Url) → is_absolute w u ≡ true → IsSite w u
absolute-IsSite w u h = (
  schemes w u h,
  λ e. unfold is_absolute in ground (arith, eq_complete (w.to_lower u.hostname) [] e),
  unfold is_absolute in ground arith,
)

default-port :
    (scheme p : Text)
    → (scheme ≡ bytes "http") ⊎ (scheme ≡ bytes "https")
    → is_default_port scheme p ≡ true
    → p ≡ port_used scheme []
unfolding is_default_port ◌==◌
default-port scheme p (inl e) h = rw e (eq_sound p (bytes "80") (ground (arith, rw e at h)))
default-port scheme p (inr e) h = rw e (eq_sound p (bytes "443") (ground (arith, rw e at h)))

suffix-cases :
    (scheme p : Text)
    → (scheme ≡ bytes "http") ⊎ (scheme ≡ bytes "https")
    → ((port_suffix scheme p ≡ []) × (port_used scheme p ≡ port_used scheme []))
      ⊎ ((port_suffix scheme p ≡ b':' ∷ p) × (port_used scheme p ≡ p))
unfolding port_suffix
suffix-cases scheme p h = elim (Bool-cases (p == [])) [
  | inl e ↦ rw e (inl (refl, unfold ◌==◌ in refl))
  | inr e ↦ elim (Bool-cases (is_default_port scheme p)) [
    | inl d ↦ rw (e, d) (inl (refl, default-port scheme p h d))
    | inr d ↦ rw (e, d) (inr (refl, refl))
  ]
]

same_suffix :
    (scheme p q : Text)
    → (scheme ≡ bytes "http") ⊎ (scheme ≡ bytes "https")
    → port_suffix scheme p ≡ port_suffix scheme q
    → port_used scheme p ≡ port_used scheme q
same_suffix scheme p q h e = elim (suffix-cases scheme p h) [
  | inl (sp, up) ↦ elim (suffix-cases scheme q h) [
    | inl (sq, uq) ↦ up ∙ sym uq
    | inr (sq, uq) ↦ ground (arith, sp, sq, e)
  ]
  | inr (sp, up) ↦ elim (suffix-cases scheme q h) [
    | inl (sq, uq) ↦ ground (arith, sp, sq, e)
    | inr (sq, uq) ↦ cc (up, uq, sp, sq, e)
  ]
]

origin-parse :
    (w : Web) (raw o : Text)
    → origin w raw ≡ some o
    → (u : Url) × (w.parse raw ≡ some u) × (is_absolute w u ≡ true) × (written w u ≡ o)
unfolding origin origin_of
origin-parse w raw o h = elim (Option-cases (w.parse raw)) [
  | inl n ↦ ground (arith, rw n at h)
  | inr (u, e) ↦ elim (Bool-cases (is_absolute w u)) [
    | inl a ↦ (u, e, a, ground (arith, rw (e, a) at h))
    | inr a ↦ ground (arith, rw (e, a) at h)
  ]
]

same_origin-origins :
    (w : Web) (raw anchor : Text)
    → same_origin w raw anchor ≡ true
    → (o : Text) × (origin w raw ≡ some o) × (origin w anchor ≡ some o)
unfolding same_origin agree
same_origin-origins w raw anchor h = elim (Option-cases (origin w raw)) [
  | inl n ↦ ground (arith, rw n at h)
  | inr (a, e) ↦ elim (Option-cases (origin w anchor)) [
    | inl n ↦ ground (arith, rw (e, n) at h)
    | inr (b, f) ↦
        let same : a ≡ b = eq_sound a b (rw (e, f) at h) in (a, e, f ∙ ap some (sym same))
  ]
]

same_origin-SharesSite :
    (w : Web) (to anchor : Text) → same_origin w to anchor ≡ true → SharesSite w to anchor
same_origin-SharesSite w to anchor h =
    let (o, from, there) = same_origin-origins w to anchor h in
    let (u, pu, au, eu) = origin-parse w to o from in
    let (v, pv, av, ev) = origin-parse w anchor o there in
    (
      u,
      v,
      pu,
      pv,
      absolute-IsSite w u au,
      absolute-IsSite w v av,
      λ hu hv.
          let (scheme, host, port) = written_inj w u v au av hu hv (eu ∙ sym ev) in
          (
            scheme,
            host,
            same_suffix u.scheme u.port v.port (schemes w u au)
                  (port ∙ ap (λ s. port_suffix s v.port) (sym scheme))
                ∙ ap (λ s. port_used s v.port) scheme,
          ),
    )

same_origin_refl : (w : Web) (raw o : Text) → origin w raw ≡ some o → same_origin w raw raw ≡ true
unfolding same_origin agree
same_origin_refl w raw o e = rw e (eq_refl o)

fallback-IsVouched :
    (w : Web) (configured base : Text) → IsVouched w configured base (fallback w configured)
unfolding fallback configured_redirect
fallback-IsVouched w configured base = elim (Bool-cases (configured == [])) [
  | inl e ↦ rw e (inl refl)
  | inr e ↦ elim (Bool-cases (relative_path w configured)) [
    | inl r ↦ rw (e, r) (inr (inl (relative_path_sound w configured r)))
    | inr r ↦ elim (Option-cases (origin w configured)) [
      | inl o ↦ rw (e, r, o) (inl refl)
      | inr (a, o) ↦
          rw (e, r, o)
            (inr (
              inr (
                inl (
                  same_origin-SharesSite w configured configured
                    (same_origin_refl w configured a o)))))
    ]
  ]
]

-- Whatever a submission requests, the destination is the built-in page, a path on this server, or an
-- address over http or https, without user information, that has scheme, host and port in common
-- with the configured redirect or with the base address; the last is said only of hosts that hold no
-- colon. The requested value is the destination unless it is empty or was refused.
pub redirect-IsVouched :
    (w : Web) (requested configured base : Text)
    → IsVouched w configured base (redirect w requested configured base).0
      × ((redirect w requested configured base).1 ≡ false
          → requested ≢ []
          → (redirect w requested configured base).0 ≡ requested)
unfolding redirect
redirect-IsVouched w requested configured base = elim (Bool-cases (requested == [])) [
  | inl e ↦
      rw e
        (fallback-IsVouched w configured base, λ _ no. ground (arith, no (eq_sound requested [] e)))
  | inr e ↦ elim (Bool-cases (relative_path w requested)) [
    | inl r ↦ rw (e, r) (inr (inl (relative_path_sound w requested r)), λ _ _. refl)
    | inr r ↦ elim (Bool-cases (same_origin w requested configured)) [
      | inl c ↦
          rw (e, r, c)
            (inr (inr (inl (same_origin-SharesSite w requested configured c))), λ _ _. refl)
      | inr c ↦ elim (Bool-cases (same_origin w requested base)) [
        | inl b ↦
            rw (e, r, c, b)
              (inr (inr (inr (same_origin-SharesSite w requested base b))), λ _ _. refl)
        | inr b ↦ rw (e, r, c, b) (fallback-IsVouched w configured base, λ h _. ground arith)
      ]
    ]
  ]
]
