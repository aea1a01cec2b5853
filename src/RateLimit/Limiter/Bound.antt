-- ===== src/RateLimit/Limiter/Bound.antt =====
-- The guarantee of the token bucket: however the calls fall, an address gets at most the burst and
-- what the rate refills, and sweeping idle buckets gives nothing away.
use Prim.Native.Nat.{min}
use dsforms.Common.{
  ℕ, ◌+◌, ◌-◌, ◌*◌, ◌≤◌, ltb, if◌then◌else◌, Bool-cases, Text, eq_sound, ◌==◌, ◌≡◌, refl, ◌∙◌, inl,
  inr, true, Option, none, some, List, [], ◌∷◌, arith,
}
use native.Mathlib.Nat.{add-zero, zero-add, add_assoc}
use dsforms.Common.Int.{pos, sub_ℕ, ltb_ℤ, ◌+ℤ◌, ◌*ℤ◌, sub_ℕ-pos, pos-add, pos-mul}
use dsforms.Common.Assoc.{lookup, IsMap, kept}
use dsforms.RateLimit.Limiter.{
  Bucket, Limiter, one, full, refill, opened, spend, allow, cleanup, new_limiter,
}
use dsforms.RateLimit.Limiter.Map.{
  answer-allow, lookup-allow, bounds-allow, allow-IsMap, is_stale, lookup-cleanup, bounds-cleanup,
  cleanup-IsMap,
}

pub data Event : Type 0 where
  request : Text → ℕ → Event
  idle_sweep : ℕ → ℕ → Event

abbrev pub time : Event → ℕ
time (request ip t) = t
time (idle_sweep t max_age) = t

unfoldable pub step : Limiter → Event → Limiter
step l (request ip t) = (allow l ip t).0
step l (idle_sweep t max_age) = cleanup l (λ _. t) max_age

abbrev admitted : Limiter → Text → Event → ℕ
admitted l j (request ip t) = if ip == j then (if (allow l ip t).1 then 1 else 0) else 0
admitted l j (idle_sweep t max_age) = 0

-- The requests of the address `j` that were let through, and the time of the last event.
unfoldable pub let_through : Limiter → Text → List Event → ℕ
let_through l j [] = 0
let_through l j (e ∷ es) = admitted l j e + let_through (step l e) j es

unfoldable pub end_time : ℕ → List Event → ℕ
end_time t [] = t
end_time t (e ∷ es) = end_time (time e) es

-- The clock does not go back, and a swept bucket would have been full again by then.
abbrev pub Ordered : (burst per_minute : ℕ) → ℕ → List Event → Type 0
Ordered burst per_minute t [] = Unit
Ordered burst per_minute t (request ip u ∷ es) = (t ≤ u) × Ordered burst per_minute u es
Ordered burst per_minute t (idle_sweep u max_age ∷ es) =
    (t ≤ u) × (burst * one ≤ max_age * per_minute) × Ordered burst per_minute u es

-- What a bucket with `k` units is worth at `t`.
abbrev worth : (burst per_minute : ℕ) → ℕ → ℕ → Bucket → ℕ
worth burst per_minute t k b = min (burst * one) (k + (t - b.last_seen) * per_minute)

-- `n` requests went through since `t₀`, and it is `t` now.
abbrev Within : (burst per_minute : ℕ) → ℕ → ℕ → ℕ → Option Bucket → Type 0
Within burst per_minute t₀ t n none = n * one + t₀ * per_minute ≤ t * per_minute
Within burst per_minute t₀ t n (some b) =
    (k : ℕ) × (b.tokens ≡ pos k)
    × (b.last_seen ≤ t)
    × (n * one + worth burst per_minute t k b + t₀ * per_minute ≤ burst * one + t * per_minute)

mul_mono : (a b c : ℕ) → a ≤ b → a * c ≤ b * c
mul_mono a b c h = grind arith

mul-sub : (a b c : ℕ) → b ≤ a → (a - b) * c + b * c ≡ a * c
mul-sub a b c h = grind arith

refilled :
    (t k pm : ℕ) (b : Bucket)
    → b.tokens ≡ pos k
    → b.last_seen ≤ t
    → b.tokens +ℤ sub_ℕ t b.last_seen *ℤ pos pm ≡ pos (k + (t - b.last_seen) * pm)
refilled t k pm b e h =
    cc (
      e,
      sub_ℕ-pos t b.last_seen h,
      pos-mul (t - b.last_seen) pm,
      pos-add k ((t - b.last_seen) * pm),
    )

capped : (full m : ℕ) → (if ltb_ℤ (pos full) (pos m) then pos full else pos m) ≡ pos (min full m)
capped full m = ground arith

refill-pos :
    (l : Limiter) (t k : ℕ) (b : Bucket)
    → b.tokens ≡ pos k
    → b.last_seen ≤ t
    → (refill l t b).tokens ≡ pos (min (l.burst * one) (k + (t - b.last_seen) * l.per_minute))
unfolding refill
refill-pos l t k b e h = rw (refilled t k l.per_minute b e h) (capped (l.burst * one) _)

-- A bucket gains no more than the rate refills.
worth-later :
    (burst per_minute t u k : ℕ) (b : Bucket)
    → b.last_seen ≤ t
    → t ≤ u
    → worth burst per_minute u k b + t * per_minute ≤ worth burst per_minute t k b + u * per_minute
worth-later burst per_minute t u k b past h = omega (
  arith,
  mul-sub t b.last_seen per_minute past,
  mul-sub u b.last_seen per_minute (omega (arith, past, h)),
  mul_mono t u per_minute h,
)

-- What a call at `u` may spend.
opened-Within :
    (l : Limiter) (t₀ t u n : ℕ) (o : Option Bucket)
    → t ≤ u
    → Within l.burst l.per_minute t₀ t n o
    → (k : ℕ) × ((opened l u o).tokens ≡ pos k)
      × ((opened l u o).last_seen ≡ u)
      × (n * one + k + t₀ * l.per_minute ≤ l.burst * one + u * l.per_minute)
unfolding opened
opened-Within l t₀ t u n none h w =
    (l.burst * one, unfold full in refl, refl, omega (arith, w, mul_mono t u l.per_minute h))
opened-Within l t₀ t u n (some b) h (k, e, past, w) = (
  worth l.burst l.per_minute u k b,
  refill-pos l u k b e (omega arith),
  unfold refill in refl,
  omega (arith, w, worth-later l.burst l.per_minute t u k b past h),
)

-- A bucket that was just seen is worth what it holds at most.
worth-seen :
    (burst per_minute u k : ℕ) (b : Bucket) → b.last_seen ≡ u → worth burst per_minute u k b ≤ k
worth-seen burst per_minute u k b e = grind (arith, e)

spend-Within :
    (l : Limiter) (t₀ u n k : ℕ) (b : Bucket)
    → b.tokens ≡ pos k
    → b.last_seen ≡ u
    → n * one + k + t₀ * l.per_minute ≤ l.burst * one + u * l.per_minute
    → Within l.burst l.per_minute t₀ u (n + (if (spend b).1 then 1 else 0)) (some (spend b).0)
unfolding spend
spend-Within l t₀ u n k b e seen w = elim (Bool-cases (ltb k one)) [
  | inl short ↦ (
    k,
    ground arith,
    ground arith,
    ground (
      arith,
      short,
      worth-seen l.burst l.per_minute u k
          (record b { requests = b.requests + 1; throttled = b.throttled + 1 }) seen,
    ),
  )
  | inr enough ↦ (
    k - one,
    ground arith,
    ground arith,
    ground (
      arith,
      enough,
      worth-seen l.burst l.per_minute u (k - one)
          (record b { requests = b.requests + 1; tokens = pos (k - one) }) seen,
    ),
  )
]

Within-end :
    (burst per_minute t₀ t n : ℕ) (o : Option Bucket)
    → Within burst per_minute t₀ t n o
    → n * one + t₀ * per_minute ≤ burst * one + t * per_minute
Within-end burst per_minute t₀ t n none w = omega (arith, w)
Within-end burst per_minute t₀ t n (some b) (k, e, past, w) = omega (arith, w)

Within-later :
    (l : Limiter) (t₀ t u n : ℕ) (o : Option Bucket)
    → t ≤ u
    → Within l.burst l.per_minute t₀ t n o
    → Within l.burst l.per_minute t₀ u n o
Within-later l t₀ t u n none h w = omega (arith, w, mul_mono t u l.per_minute h)
Within-later l t₀ t u n (some b) h (k, e, past, w) =
    (k, e, omega arith, omega (arith, w, worth-later l.burst l.per_minute t u k b past h))

-- A bucket that has been idle for `max_age` could have been full: forgetting it gives nothing away.
Within-kept :
    (l : Limiter) (t₀ t u n max_age : ℕ) (o : Option Bucket)
    → t ≤ u
    → l.burst * one ≤ max_age * l.per_minute
    → Within l.burst l.per_minute t₀ t n o
    → Within l.burst l.per_minute t₀ u n (kept (is_stale u max_age) o)
Within-kept l t₀ t u n max_age none h rich w = Within-later l t₀ t u n none h w
Within-kept l t₀ t u n max_age (some b) h rich (k, e, past, w) =
    elim (Bool-cases (is_stale u max_age b)) [
      | inl stale ↦
          let idle : max_age + b.last_seen ≤ u = ground arith in
          rw stale (
            omega (
              arith,
              w,
              rich,
              worth-later l.burst l.per_minute t u k b past h,
              mul_mono max_age (u - b.last_seen) l.per_minute (omega (arith, idle)),
            ))
      | inr fresh ↦ rw fresh (Within-later l t₀ t u n (some b) h (k, e, past, w))
    ]

Within-allow :
    (l : Limiter) (ip j : Text) (t₀ t u n : ℕ)
    → t ≤ u
    → Within l.burst l.per_minute t₀ t n (lookup j l.buckets)
    → Within l.burst l.per_minute t₀ u
        (n + admitted l j (request ip u))
        (lookup j (allow l ip u).0.buckets)
Within-allow l ip j t₀ t u n h w = elim (Bool-cases (ip == j)) [
  | inl e ↦
      let same : ip ≡ j = eq_sound ip j e in
      let (k, tokens, seen, fits) = opened-Within l t₀ t u n (lookup ip l.buckets) h (rw same w) in
      rw (lookup-allow l ip j u, e, answer-allow l ip u)
        (spend-Within l t₀ u n k (opened l u (lookup ip l.buckets)) tokens seen fits)
  | inr e ↦ rw (lookup-allow l ip j u, e) (rw (add-zero n) (Within-later l t₀ t u n _ h w))
]

unfoldable pub run : Limiter → List Event → Limiter
unfolding step
run l [] = l
run l (e ∷ es) = run (step l e) es

-- The limits of the limiter after a run are those before it.
bounds-run :
    (l : Limiter) (es : List Event)
    → ((run l es).burst ≡ l.burst) × ((run l es).per_minute ≡ l.per_minute)
unfolding run
bounds-run l [] = (refl, refl)
bounds-run l (request ip u ∷ es) =
    let (b, r) = bounds-run (allow l ip u).0 es in
    (b ∙ (bounds-allow l ip u).0, r ∙ (bounds-allow l ip u).1)
bounds-run l (idle_sweep u max_age ∷ es) =
    let (b, r) = bounds-run (cleanup l (λ _. u) max_age) es in
    (b ∙ (bounds-cleanup l (λ _. u) max_age).0, r ∙ (bounds-cleanup l (λ _. u) max_age).1)

run-Within :
    (burst per_minute : ℕ) (l : Limiter) (j : Text) (t₀ t n : ℕ) (es : List Event)
    → l.burst ≡ burst
    → l.per_minute ≡ per_minute
    → IsMap l.buckets
    → Ordered burst per_minute t es
    → Within burst per_minute t₀ t n (lookup j l.buckets)
    → Within burst per_minute t₀
        (end_time t es)
        (n + let_through l j es)
        (lookup j (run l es).buckets)
unfolding let_through end_time run
run-Within burst per_minute l j t₀ t n [] b r m h w = rw (add-zero n) w
run-Within burst per_minute l j t₀ t n (request ip u ∷ es) b r m (later, h) w =
    rw (← add_assoc n (admitted l j (request ip u)) (let_through (allow l ip u).0 j es)) (
      run-Within burst per_minute (allow l ip u).0 j t₀ u (n + admitted l j (request ip u)) es
        ((bounds-allow l ip u).0 ∙ b) ((bounds-allow l ip u).1 ∙ r) (allow-IsMap l ip u m) h
        (rw (← b, ← r) (Within-allow l ip j t₀ t u n later (rw (b, r) w))))
run-Within burst per_minute l j t₀ t n (idle_sweep u max_age ∷ es) b r m (later, rich, h) w =
    rw (zero-add (let_through (cleanup l (λ _. u) max_age) j es)) (
      run-Within burst per_minute (cleanup l (λ _. u) max_age) j t₀ u n es
        ((bounds-cleanup l (λ _. u) max_age).0 ∙ b) ((bounds-cleanup l (λ _. u) max_age).1 ∙ r)
        (cleanup-IsMap l (λ _. u) max_age m) h
        (rw (lookup-cleanup l (λ _. u) max_age j m)
          (rw (← b, ← r) (Within-kept l t₀ t u n max_age _ later (rw (b, r) rich) (rw (b, r) w)))))

new_limiter-inv :
    (burst per_minute : ℕ) (l : Limiter)
    → new_limiter burst per_minute ≡ some l
    → (l.burst ≡ burst) × (l.per_minute ≡ per_minute) × (l.buckets ≡ []) × (1 ≤ burst)
unfolding new_limiter
new_limiter-inv burst per_minute l made = ground arith

lookup-nil : {V : Type 0} (j : Text) → lookup {V = V} j [] ≡ none
unfolding lookup
lookup-nil j = refl

new_limiter-Within :
    (burst per_minute : ℕ) (l : Limiter) (j : Text) (t₀ : ℕ) (es : List Event)
    → new_limiter burst per_minute ≡ some l
    → Ordered burst per_minute t₀ es
    → Within burst per_minute t₀ (end_time t₀ es) (let_through l j es) (lookup j (run l es).buckets)
new_limiter-Within burst per_minute l j t₀ es made h =
    let (b, r, empty, positive) = new_limiter-inv burst per_minute l made in
    rw (zero-add (let_through l j es)) at (
      run-Within burst per_minute l j t₀ t₀ 0 es b r (rw empty tt) h
        (rw (empty, lookup-nil {V = Bucket} j) (omega arith)))

-- A count that starts anew at `t₁`, at whatever the bucket holds then.
Within-anew :
    (burst per_minute t₀ t t₁ n : ℕ) (o : Option Bucket)
    → t ≤ t₁
    → Within burst per_minute t₀ t n o
    → Within burst per_minute t₁ t₁ 0 o
Within-anew burst per_minute t₀ t t₁ n none h w = omega arith
Within-anew burst per_minute t₀ t t₁ n (some b) h (k, e, past, w) = (k, e, omega arith, omega arith)

run-IsMap : (l : Limiter) (es : List Event) → IsMap l.buckets → IsMap (run l es).buckets
unfolding run
run-IsMap l [] m = m
run-IsMap l (request ip u ∷ es) m = run-IsMap (allow l ip u).0 es (allow-IsMap l ip u m)
run-IsMap l (idle_sweep u max_age ∷ es) m =
    run-IsMap (cleanup l (λ _. u) max_age) es (cleanup-IsMap l (λ _. u) max_age m)

-- After any events `before` on a new limiter, in any window that starts at `t₁`, however long an address
-- was idle: while the clock does not go back, and sweeps drop only buckets that were idle long
-- enough to be full again, the address is let through in the window at most `burst` times and as often
-- as the rate refills in the time from `t₁` to the last event. Each request that is let through costs
-- a token of `one` units, and a nanosecond refills `per_minute` units. Requests of other addresses do
-- not matter.
pub let_through-le :
    (burst per_minute : ℕ) (l : Limiter) (j : Text) (t₀ t₁ : ℕ) (before es : List Event)
    → new_limiter burst per_minute ≡ some l
    → Ordered burst per_minute t₀ before
    → end_time t₀ before ≤ t₁
    → Ordered burst per_minute t₁ es
    → let_through (run l before) j es * one + t₁ * per_minute
      ≤ burst * one + end_time t₁ es * per_minute
let_through-le burst per_minute l j t₀ t₁ before es made h later window =
    let (b, r, empty, positive) = new_limiter-inv burst per_minute l made in
    let (b', r') = bounds-run l before in
    let start =
      Within-anew burst per_minute t₀ (end_time t₀ before) t₁ (let_through l j before) _ later
        (new_limiter-Within burst per_minute l j t₀ before made h) in
    let is_map = run-IsMap l before (rw empty tt) in
    Within-end burst per_minute t₁ (end_time t₁ es) (let_through (run l before) j es) _ (
      rw (zero-add (let_through (run l before) j es)) at (
        run-Within burst per_minute (run l before) j t₁ t₁ 0 es (b' ∙ b) (r' ∙ r) is_map window
          start))

spend-enough : (b : Bucket) (k : ℕ) → b.tokens ≡ pos k → one ≤ k → (spend b).1 ≡ true
unfolding spend
spend-enough b k e h = ground arith

opened-enough :
    (l : Limiter) (t₀ t u n : ℕ) (o : Option Bucket)
    → 1 ≤ l.burst
    → t ≤ u
    → one ≤ (u - t) * l.per_minute
    → Within l.burst l.per_minute t₀ t n o
    → (spend (opened l u o)).1 ≡ true
opened-enough l t₀ t u n none positive later enough w =
    spend-enough (opened l u none) (l.burst * one) (unfold opened full in refl) (omega arith)
opened-enough l t₀ t u n (some b) positive later enough (k, e, past, w) =
    spend-enough (opened l u (some b)) (min (l.burst * one) (k + (u - b.last_seen) * l.per_minute))
      (unfold opened in refill-pos l u k b e (omega arith))
      (omega (arith, mul_mono (u - t) (u - b.last_seen) l.per_minute (omega arith)))

-- Nobody is locked out for good: after any run as above, whatever other addresses did, a request that
-- comes when at least the time of one token has passed since the last event is let through.
pub allow_after_wait :
    (burst per_minute : ℕ) (l : Limiter) (j : Text) (t₀ u : ℕ) (es : List Event)
    → new_limiter burst per_minute ≡ some l
    → Ordered burst per_minute t₀ es
    → end_time t₀ es ≤ u
    → one ≤ (u - end_time t₀ es) * per_minute
    → (allow (run l es) j u).1 ≡ true
allow_after_wait burst per_minute l j t₀ u es made h later enough =
    let (b, r, empty, positive) = new_limiter-inv burst per_minute l made in
    let (b', r') = bounds-run l es in
    answer-allow (run l es) j u
    ∙ opened-enough (run l es) t₀ (end_time t₀ es) u (let_through l j es) _ (rw (b', b) positive)
        later (rw (r', r) enough)
        (rw (b' ∙ b, r' ∙ r) (new_limiter-Within burst per_minute l j t₀ es made h))
