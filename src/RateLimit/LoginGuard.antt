-- ===== src/RateLimit/LoginGuard.antt =====
-- The login guard of internal/ratelimit/ratelimit.go. An instant is a number of nanoseconds since the
-- zero `time.Time`, so 0 is the instant that `lockedUntil` starts with.
pub mod Refines
use dsforms.Common.{
  ℕ, ◌+◌, Text, Bool, false, leb, if◌then◌else◌, Option, none, some, [], ltb, not, ◌&&◌,
}
use dsforms.Common.Int.{pos, sub_ℕ, ltb_ℤ}
use dsforms.Common.Assoc.{Assoc, lookup, put, remove, sweep}

pub record LoginState : Type 0 where
  pub failures : ℕ
  pub locked_until : ℕ
  pub last_seen : ℕ

pub record LoginGuard : Type 0 where
  pub attempts : Assoc LoginState
  pub max_fails : ℕ
  pub lockout : ℕ

unfoldable pub new_login_guard : ℕ → ℕ → Option LoginGuard
new_login_guard max_fails lockout =
    if leb max_fails 0
    then none
    else some (record { attempts = []; max_fails = max_fails; lockout = lockout })

abbrev found_or_new : Option LoginState → LoginState
found_or_new none = record { failures = 0; locked_until = 0; last_seen = 0 }
found_or_new (some s) = s

unfoldable pub fail_at : LoginGuard → ℕ → LoginState → LoginState
fail_at g t s = record {
  failures = s.failures + 1;
  last_seen = t;
  locked_until = (if leb g.max_fails (s.failures + 1) then t + g.lockout else s.locked_until);
}

unfoldable pub record_failure : LoginGuard → Text → ℕ → LoginGuard
unfolding fail_at
record_failure g ip t = record g {
  attempts = put ip (fail_at g t (found_or_new (lookup ip g.attempts))) g.attempts;
}

unfoldable pub record_success : LoginGuard → Text → LoginGuard
record_success g ip = record g { attempts = remove ip g.attempts }

locks : ℕ → Option LoginState → Bool
locks now none = false
locks now (some s) = ltb now s.locked_until

unfoldable pub is_locked : LoginGuard → Text → ℕ → Bool
unfolding locks
is_locked g ip now = locks now (lookup ip g.attempts)

unfoldable pub cleanup : LoginGuard → ℕ → ℕ → LoginGuard
cleanup g t max_age = record g {
  attempts =
      sweep (λ _ s. ltb_ℤ (pos max_age) (sub_ℕ t s.last_seen) && not (ltb t s.locked_until))
        g.attempts;
}
