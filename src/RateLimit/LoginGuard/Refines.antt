-- ===== src/RateLimit/LoginGuard/Refines.antt =====
-- The login guard implements a lock that is stated over the history of each address.
use dsforms.Common.{
  ℕ, ◌+◌, ◌≤◌, ltb, leb, if◌then◌else◌, Bool-cases, Text, eq_sound, ◌==◌, ◌≡◌, refl, inl, inr, Bool,
  false, ◌&&◌, not, Option, none, some, List, [], ◌∷◌, arith,
}
use dsforms.Common.Int.{pos, sub_ℕ, ltb_ℤ}
use dsforms.Common.Assoc.{
  lookup, IsMap, lookup-put, lookup-remove, kept, lookup-sweep, put-IsMap, remove-IsMap,
}
use dsforms.RateLimit.LoginGuard.{
  LoginState, LoginGuard, new_login_guard, found_or_new, fail_at, record_failure, record_success,
  locks, is_locked, cleanup,
}

pub data Attempt : Type 0 where
  failed : Text → ℕ → Attempt
  succeeded : Text → Attempt

unfoldable pub step : LoginGuard → Attempt → LoginGuard
step g (failed ip t) = record_failure g ip t
step g (succeeded ip) = record_success g ip

-- The history is newest first, and holds only what concerns the address.
pub data Mark : Type 0 where
  miss : ℕ → Mark
  hit : Mark

unfoldable pub of_address : Text → List Attempt → List Mark
of_address j [] = []
of_address j (failed ip t ∷ h) =
    let rest = of_address j h in if ip == j then miss t ∷ rest else rest
of_address j (succeeded ip ∷ h) = let rest = of_address j h in if ip == j then hit ∷ rest else rest

-- The failures since the last success.
unfoldable pub streak : List Mark → ℕ
streak [] = 0
streak (miss t ∷ h) = streak h + 1
streak (hit ∷ h) = 0

-- An address is locked while less than the lockout has passed since its last failure, if that was
-- one of at least `max_fails` failures in a row.
unfoldable pub spec_locked : (max_fails lockout now : ℕ) → List Mark → Bool
spec_locked max_fails lockout now [] = false
spec_locked max_fails lockout now (miss t ∷ h) =
    leb max_fails (streak h + 1) && ltb now (t + lockout)
spec_locked max_fails lockout now (hit ∷ h) = false

-- The guard after a history, which is newest first.
unfoldable pub after : LoginGuard → List Attempt → LoginGuard
unfolding step
after g [] = g
after g (a ∷ h) = step (after g h) a

-- What the table holds for an address, as its history says.
abbrev Tells : (max_fails lockout : ℕ) → List Mark → Option LoginState → Type 0
Tells max_fails lockout [] o = o ≡ none
Tells max_fails lockout (hit ∷ h) o = o ≡ none
Tells max_fails lockout (miss t ∷ h) o =
    (s : LoginState) × (o ≡ some s)
    × (s.failures ≡ streak (miss t ∷ h))
    × (s.locked_until ≡ (if leb max_fails (streak (miss t ∷ h)) then t + lockout else 0))

limits-after :
    (g : LoginGuard) (h : List Attempt)
    → ((after g h).max_fails ≡ g.max_fails) × ((after g h).lockout ≡ g.lockout)
unfolding after record_failure record_success
limits-after g [] = (refl, refl)
limits-after g (failed ip t ∷ h) = limits-after g h
limits-after g (succeeded ip ∷ h) = limits-after g h

Tells-fail :
    (max_fails lockout : ℕ) (g : LoginGuard) (t : ℕ) (h : List Mark) (o : Option LoginState)
    → g.max_fails ≡ max_fails
    → g.lockout ≡ lockout
    → Tells max_fails lockout h o
    → Tells max_fails lockout (miss t ∷ h) (some (fail_at g t (found_or_new o)))
unfolding fail_at streak
Tells-fail max_fails lockout g t [] o m l e =
    (fail_at g t (found_or_new o), refl, ground arith, ground arith)
Tells-fail max_fails lockout g t (hit ∷ h) o m l e =
    (fail_at g t (found_or_new o), refl, ground arith, ground arith)
Tells-fail max_fails lockout g t (miss u ∷ h) o m l (s, e, n, until) =
    (fail_at g t (found_or_new o), refl, ground arith, ground arith)

same-fail :
    (g : LoginGuard) (ip j : Text) (t : ℕ)
    → lookup j (record_failure g ip t).attempts ≡ (
        if ip == j
        then some (fail_at g t (found_or_new (lookup ip g.attempts)))
        else lookup j g.attempts)
unfolding record_failure
same-fail g ip j t = lookup-put ip j _ g.attempts

same-succeed :
    (g : LoginGuard) (ip j : Text)
    → lookup j (record_success g ip).attempts ≡ (if ip == j then none else lookup j g.attempts)
unfolding record_success
same-succeed g ip j = lookup-remove ip j g.attempts

Tells-after :
    (g : LoginGuard) (j : Text) (h : List Attempt)
    → g.attempts ≡ []
    → Tells g.max_fails g.lockout (of_address j h) (lookup j (after g h).attempts)
unfolding after step of_address
Tells-after g j [] e = rw e (unfold lookup in refl)
Tells-after g j (failed ip t ∷ h) e = elim (Bool-cases (ip == j)) [
  | inl same ↦
      let (max, lock) = limits-after g h in
      rw (same-fail (after g h) ip j t, same)
        (rw (eq_sound ip j same) (
          Tells-fail g.max_fails g.lockout (after g h) t (of_address j h)
            (lookup j (after g h).attempts) max lock (Tells-after g j h e)))
  | inr other ↦ rw (same-fail (after g h) ip j t, other) (Tells-after g j h e)
]
Tells-after g j (succeeded ip ∷ h) e = elim (Bool-cases (ip == j)) [
  | inl same ↦ rw (same-succeed (after g h) ip j, same) refl
  | inr other ↦ rw (same-succeed (after g h) ip j, other) (Tells-after g j h e)
]

locks-spec :
    (max_fails lockout now : ℕ) (h : List Mark) (o : Option LoginState)
    → Tells max_fails lockout h o
    → locks now o ≡ spec_locked max_fails lockout now h
unfolding locks spec_locked streak
locks-spec max_fails lockout now [] o e = rw e
locks-spec max_fails lockout now (hit ∷ h) o e = rw e
locks-spec max_fails lockout now (miss t ∷ h) o (s, e, n, until) = rw e (ground arith)

new_login_guard-inv :
    (max_fails lockout : ℕ) (g : LoginGuard)
    → new_login_guard max_fails lockout ≡ some g
    → (g.max_fails ≡ max_fails) × (g.lockout ≡ lockout) × (g.attempts ≡ [])
unfolding new_login_guard
new_login_guard-inv max_fails lockout g made = ground arith

-- For a guard that was made for `max_fails` failures and a lockout, after any history of failed and
-- successful logins from any addresses: an address is locked exactly while less than the lockout has
-- passed since its last failure, and that failure ended a row of at least `max_fails`.
pub is_locked-after :
    (max_fails lockout : ℕ) (g : LoginGuard) (h : List Attempt) (j : Text) (now : ℕ)
    → new_login_guard max_fails lockout ≡ some g
    → is_locked (after g h) j now ≡ spec_locked max_fails lockout now (of_address j h)
unfolding is_locked
is_locked-after max_fails lockout g h j now made =
    let (m, l, empty) = new_login_guard-inv max_fails lockout g made in
    rw (← m, ← l)
      (locks-spec g.max_fails g.lockout now (of_address j h) _ (Tells-after g j h empty))

after-IsMap : (g : LoginGuard) (h : List Attempt) → IsMap g.attempts → IsMap (after g h).attempts
unfolding after step record_failure record_success
after-IsMap g [] m = m
after-IsMap g (failed ip t ∷ h) m = put-IsMap ip _ (after g h).attempts (after-IsMap g h m)
after-IsMap g (succeeded ip ∷ h) m = remove-IsMap ip (after g h).attempts (after-IsMap g h m)

abbrev is_idle : ℕ → ℕ → LoginState → Bool
is_idle t max_age s = ltb_ℤ (pos max_age) (sub_ℕ t s.last_seen) && not (ltb t s.locked_until)

lookup-cleanup :
    (g : LoginGuard) (j : Text) (t max_age : ℕ)
    → IsMap g.attempts
    → lookup j (cleanup g t max_age).attempts ≡ kept (is_idle t max_age) (lookup j g.attempts)
unfolding cleanup
lookup-cleanup g j t max_age m = lookup-sweep j (λ _ s. is_idle t max_age s) g.attempts m

locks-kept :
    (t now max_age : ℕ) (o : Option LoginState)
    → t ≤ now
    → locks now (kept (is_idle t max_age) o) ≡ locks now o
unfolding locks
locks-kept t now max_age none later = refl
locks-kept t now max_age (some s) later = ground arith

-- After any history from a new guard, dropping the entries that are idle at `t` changes no answer from
-- `t` on: it unlocks nobody and locks nobody.
pub is_locked-cleanup :
    (max_fails lockout : ℕ) (g : LoginGuard) (h : List Attempt) (j : Text) (t now max_age : ℕ)
    → new_login_guard max_fails lockout ≡ some g
    → t ≤ now
    → is_locked (cleanup (after g h) t max_age) j now ≡ is_locked (after g h) j now
unfolding is_locked
is_locked-cleanup max_fails lockout g h j t now max_age made later =
    let (m, l, empty) = new_login_guard-inv max_fails lockout g made in
    rw (lookup-cleanup (after g h) j t max_age (after-IsMap g h (rw empty tt)))
      (locks-kept t now max_age _ later)
