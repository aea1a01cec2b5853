-- ===== src/Urlsafe/Origins.antt =====
-- internal/urlsafe/urlsafe.go: what two addresses of one origin have in common.
use dsforms.Urlsafe.{
  Url, Web, same_origin, origin, origin_of, agree, written, is_absolute, port_suffix,
  is_default_port,
}
use dsforms.Common.{
  ℕ, if◌then◌else◌, Bool-cases, Text, bytes, eq_sound, eq_complete, ◌==◌, has_prefix, contains, ◌≡◌,
  refl, ◌≢◌, ◌↔◌, ◌⊎◌, inl, inr, Bool, true, false, ◌&&◌, not, none, some, [], ◌∷◌, ◌++◌, arith,
}

-- No colon.
abbrev pub IsPlain : Text → Type 0
IsPlain h = contains h (bytes ":") ≡ false

-- The rest of an origin after the host is empty or starts with a colon.
abbrev IsRest : Text → Type 0
IsRest [] = Unit
IsRest (c ∷ s) = c ≡ b':'

IsPlain-tail : (c : ℕ) (h : Text) → IsPlain (c ∷ h) → (c ≢ b':') × IsPlain h
unfolding contains has_prefix
IsPlain-tail c h p = (λ e. ground arith, ground arith)

host-append :
    (h k s t : Text)
    → IsPlain h
    → IsPlain k
    → IsRest s
    → IsRest t
    → h ++ s ≡ k ++ t
    → (h ≡ k) × (s ≡ t)
host-append [] [] s t p q r u e = (refl, e)
host-append [] (d ∷ k) [] t p q r u e = ground arith
host-append [] (d ∷ k) (c ∷ s) t p q r u e = ground (arith, IsPlain-tail d k q)
host-append (c ∷ h) [] s [] p q r u e = ground arith
host-append (c ∷ h) [] s (d ∷ t) p q r u e = ground (arith, IsPlain-tail c h p)
host-append (c ∷ h) (d ∷ k) s t p q r u e =
    ground (arith, host-append h k s t (IsPlain-tail c h p).1 (IsPlain-tail d k q).1 r u)

port_suffix-IsRest : (scheme port : Text) → IsRest (port_suffix scheme port)
unfolding port_suffix
port_suffix-IsRest scheme port =
    elim (Bool-cases (not (port == []) && not (is_default_port scheme port))) [
      | inl e ↦ rw e refl
      | inr e ↦ rw e tt
    ]

-- The schemes that `is_absolute` lets through.
pub schemes :
    (w : Web) (u : Url)
    → is_absolute w u ≡ true
    → (u.scheme ≡ bytes "http") ⊎ (u.scheme ≡ bytes "https")
unfolding is_absolute
schemes w u h = elim (Bool-cases (u.scheme == bytes "http")) [
  | inl e ↦ inl (eq_sound u.scheme _ e)
  | inr e ↦ inr (eq_sound u.scheme _ (ground arith))
]

scheme-append :
    (s t x y : Text)
    → (s ≡ bytes "http") ⊎ (s ≡ bytes "https")
    → (t ≡ bytes "http") ⊎ (t ≡ bytes "https")
    → s ++ (bytes "://" ++ x) ≡ t ++ (bytes "://" ++ y)
    → (s ≡ t) × (x ≡ y)
scheme-append s t x y p q e = ground arith

agree-if :
    (a b : Bool) (x y : Text)
    → (agree (if a then some x else none) (if b then some y else none) ≡ true)
      ↔ ((a ≡ true) × (b ≡ true) × (x ≡ y))
unfolding agree
agree-if true true x y = (λ h. (refl, refl, eq_sound x y h), λ (p, q, e). eq_complete x y e)
agree-if true false x y = (λ h. ground arith, λ (p, q, e). ground arith)
agree-if false b x y = (λ h. ground arith, λ (p, q, e). ground arith)

pub written_inj :
    (w : Web) (u v : Url)
    → is_absolute w u ≡ true
    → is_absolute w v ≡ true
    → IsPlain (w.to_lower u.hostname)
    → IsPlain (w.to_lower v.hostname)
    → written w u ≡ written w v
    → (u.scheme ≡ v.scheme)
      × (w.to_lower u.hostname ≡ w.to_lower v.hostname)
      × (port_suffix u.scheme u.port ≡ port_suffix v.scheme v.port)
unfolding written
written_inj w u v au av hu hv e =
    let (same, rest) = scheme-append u.scheme v.scheme _ _ (schemes w u au) (schemes w v av) e in
    let (host, port) =
      host-append _ _ _ _ hu hv (port_suffix-IsRest u.scheme u.port)
        (port_suffix-IsRest v.scheme v.port) rest in
    (same, host, port)

written_cong :
    (w : Web) (u v : Url)
    → u.scheme ≡ v.scheme
    → w.to_lower u.hostname ≡ w.to_lower v.hostname
    → port_suffix u.scheme u.port ≡ port_suffix v.scheme v.port
    → written w u ≡ written w v
unfolding written
written_cong w u v a b c = cc

-- Two parsed addresses whose hosts hold no colon have the same origin exactly if both are absolute
-- addresses over http or https without user information, their schemes are equal, their hosts are
-- equal in lower case, and their ports are equal, where the default port of the scheme counts as
-- none.
same_origin_iff :
    (w : Web) (raw anchor : Text) (u v : Url)
    → w.parse raw ≡ some u
    → w.parse anchor ≡ some v
    → IsPlain (w.to_lower u.hostname)
    → IsPlain (w.to_lower v.hostname)
    → (same_origin w raw anchor ≡ true) ↔ (
        (is_absolute w u ≡ true)
        × (is_absolute w v ≡ true)
        × (u.scheme ≡ v.scheme)
        × (w.to_lower u.hostname ≡ w.to_lower v.hostname)
        × (port_suffix u.scheme u.port ≡ port_suffix v.scheme v.port))
unfolding same_origin origin origin_of
same_origin_iff w raw anchor u v pu pv hu hv =
    rw (pu, pv)
      (let (to, from) = agree-if (is_absolute w u) (is_absolute w v) (written w u) (written w v) in
        (
          λ h.
              let (au, av, e) = to h in
              let (a, b, c) = written_inj w u v au av hu hv e in (au, av, a, b, c),
          λ (au, av, a, b, c). from (au, av, written_cong w u v a b c),
        ))
