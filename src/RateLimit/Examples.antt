-- ===== src/RateLimit/Examples.antt =====
-- The limiter and the login guard at concrete traces.
use dsforms.Common.{
  ◌+◌, ◌*◌, ◌≤◌, length, Text, bytes, ◌==◌, ◌≡◌, refl, true, false, some, List, [], ◌∷◌, arith,
}
use dsforms.Common.Assoc.{lookup, put, remove, sweep}
use dsforms.RateLimit.Limiter
use dsforms.RateLimit.Limiter.{new_limiter, allow, one}
use dsforms.RateLimit.Limiter.Bound.{
  Event, request, idle_sweep, run, let_through, end_time, let_through-le, allow_after_wait,
}
use dsforms.RateLimit.LoginGuard
use dsforms.RateLimit.LoginGuard.{new_login_guard, is_locked}
use dsforms.RateLimit.LoginGuard.Refines.{
  Attempt, failed, succeeded, after, of_address, spec_locked, is_locked-after, is_locked-cleanup,
}

abbrev visitor : Text
visitor = bytes "10.0.0.1"

abbrev limiter : Limiter.Limiter
limiter = record { buckets = []; burst = 2; per_minute = 6 }

limiter_made : new_limiter 2 6 ≡ some limiter
unfolding new_limiter
limiter_made = refl

-- Three requests in a second, and a sweep of what was idle for half an hour.
abbrev busy : List Event
busy =
    request visitor 1_000_000_000
    ∷ request visitor 1_500_000_000
    ∷ request visitor 2_000_000_000
    ∷ idle_sweep 4_000_000_000_000 1_800_000_000_000
    ∷ []

two_of_three :
    (let_through limiter visitor busy ≡ 2)
    × (length (run limiter busy).buckets ≡ 0)
    × (end_time 1_000_000_000 busy ≡ 4_000_000_000_000)
unfolding let_through run allow Limiter.cleanup lookup put sweep ◌==◌ end_time
two_of_three = (refl, refl, refl)

-- The window starts after a request and an idle minute.
let_through-le_example :
    let_through (run limiter (request visitor 5 ∷ [])) visitor busy * one + 1_000_000_000 * 6
    ≤ 2 * one + end_time 1_000_000_000 busy * 6
unfolding end_time
let_through-le_example =
    let_through-le 2 6 limiter visitor 0 1_000_000_000 (request visitor 5 ∷ []) busy limiter_made
      (omega arith) (omega arith) (omega arith)

allow_after_wait_example : (allow (run limiter busy) visitor 4_010_000_000_000).1 ≡ true
allow_after_wait_example =
    allow_after_wait 2 6 limiter visitor 1_000_000_000 4_010_000_000_000 busy limiter_made
      (omega arith) (omega (arith, two_of_three.2)) (omega (arith, two_of_three.2))

abbrev guard : LoginGuard.LoginGuard
guard = record { attempts = []; max_fails = 2; lockout = 900 }

guard_made : new_login_guard 2 900 ≡ some guard
unfolding new_login_guard
guard_made = refl

-- Newest first.
abbrev guesses : List Attempt
guesses =
    failed visitor 1_020 ∷ failed visitor 1_010 ∷ succeeded visitor ∷ failed visitor 1_000 ∷ []

locked_until_1920 :
    (is_locked (after guard guesses) visitor 1_919 ≡ true)
    × (is_locked (after guard guesses) visitor 1_920 ≡ false)
unfolding after is_locked LoginGuard.record_failure LoginGuard.record_success lookup put remove ◌==◌
locked_until_1920 = (refl, refl)

is_locked-after_example :
    is_locked (after guard guesses) visitor 1_919
    ≡ spec_locked 2 900 1_919 (of_address visitor guesses)
is_locked-after_example = is_locked-after 2 900 guard guesses visitor 1_919 guard_made

is_locked-cleanup_example :
    is_locked (LoginGuard.cleanup (after guard guesses) 1_100 10) visitor 1_200
    ≡ is_locked (after guard guesses) visitor 1_200
is_locked-cleanup_example =
    is_locked-cleanup 2 900 guard guesses visitor 1_100 1_200 10 guard_made (omega arith)
