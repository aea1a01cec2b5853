-- ===== src/Repeat/Exact.antt =====
-- What the tracker answers, against the whole history of submissions.
use dsforms.Common.{
  ℕ, ◌+◌, ◌≤◌, ◌=ℕ◌, leb, if◌then◌else◌, Bool-cases, Option-cases, and-eq-true, Bool-ext, length,
  count, All, Text, eq_sound, eq_refl, eq_complete, eq_iff, ◌==◌, cut, ◌≡◌, refl, ap, ◌∙◌, inl, inr,
  Bool, true, false, ◌&&◌, Option, some, List, [], ◌∷◌, ◌++◌, arith,
}
use dsforms.Repeat.{
  Tracker, exists_in, increment, without, key_of, evict, admit, record_seen, ready, seen, run,
  new_tracker, tally, answer_after,
}
use dsforms.Repeat.Bounded.{seen-ready}

abbrev pub HasNoNul : Text → Type 0
HasNoNul s = All (λ c. (c =ℕ 0) ≡ false) s

cut-key_of : (f ip : Text) → HasNoNul f → cut 0 (key_of f ip) ≡ some (f, ip)
unfolding key_of cut
cut-key_of [] ip h = ground arith
cut-key_of (c ∷ f) ip h = ground (arith, cut-key_of f ip)

-- The key of a pair is the pair: if the form ids hold no NUL byte, equal keys come from equal pairs.
key_of_injective :
    (f g ip jp : Text) → HasNoNul f → HasNoNul g → key_of f ip ≡ key_of g jp → (f ≡ g) × (ip ≡ jp)
key_of_injective f g ip jp h k e =
    let same : ◌≡◌ {A = Option (Text × Text)} (some (f, ip)) (some (g, jp)) =
      cc (cut-key_of f ip h, cut-key_of g jp k, ap (cut 0) e) in
    (ground arith, ground arith)

abbrev has_key : Text → Text × Text → Bool
has_key key (f, ip) = key_of f ip == key

-- The same form and the same address.
abbrev pub is_pair : Text → Text → Text × Text → Bool
is_pair f ip (g, jp) = (g == f) && (jp == ip)

-- No form id of a history holds a NUL byte.
abbrev pub AreForms : List (Text × Text) → Type 0
AreForms hs = All (λ h. HasNoNul h.0) hs

pair-key :
    (f g ip jp : Text)
    → HasNoNul f
    → HasNoNul g
    → (key_of g jp == key_of f ip) ≡ ((g == f) && (jp == ip))
pair-key f g ip jp h k =
    Bool-ext (key_of g jp == key_of f ip) ((g == f) && (jp == ip))
      (λ e.
        let (form, address) =
          key_of_injective g f jp ip k h (eq_sound (key_of g jp) (key_of f ip) e) in
        rw (eq_complete g f form, eq_complete jp ip address) refl)
      (λ e.
        let (form, address) = and-eq-true (g == f) (jp == ip) e in
        let same : key_of g jp ≡ key_of f ip = cc (eq_sound g f form, eq_sound jp ip address) in
        eq_complete (key_of g jp) (key_of f ip) same)

count-pair :
    (f ip : Text) (hs : List (Text × Text))
    → HasNoNul f
    → AreForms hs
    → count (has_key (key_of f ip)) hs ≡ count (is_pair f ip) hs
count-pair f ip [] h forms = refl
count-pair f ip ((g, jp) ∷ hs) h (first_form, forms) =
    rw (pair-key f g ip jp h first_form, count-pair f ip hs h forms) refl

-- The tallies of a history, with no bound.
unfoldable pub tallies : List (Text × ℕ) → List (Text × Text) → List (Text × ℕ)
tallies m [] = m
tallies m ((f, ip) ∷ hs) = tallies (increment (key_of f ip) m) hs

tallies-append :
    (m : List (Text × ℕ)) (hs : List (Text × Text)) (f ip : Text)
    → tallies m (hs ++ (f, ip) ∷ []) ≡ increment (key_of f ip) (tallies m hs)
unfolding tallies
tallies-append m [] f ip = refl
tallies-append m ((g, jp) ∷ hs) f ip = tallies-append (increment (key_of g jp) m) hs f ip

tally-increment :
    (j k : Text) (m : List (Text × ℕ))
    → tally k (increment j m) ≡ tally k m + (if j == k then 1 else 0)
unfolding tally increment
tally-increment j k [] = ground arith
tally-increment j k ((i, n) ∷ m) =
    ground (arith, tally-increment j k m, eq_iff i j, eq_iff i k, eq_iff j k)

tally-tallies :
    (k : Text) (m : List (Text × ℕ)) (hs : List (Text × Text))
    → tally k (tallies m hs) ≡ tally k m + count (has_key k) hs
unfolding tallies
tally-tallies k m [] = omega arith
tally-tallies k m ((f, ip) ∷ hs) =
    omega (arith, tally-tallies k (increment (key_of f ip) m) hs, tally-increment (key_of f ip) k m)

length-increment-le : (k : Text) (m : List (Text × ℕ)) → length m ≤ length (increment k m)
unfolding increment
length-increment-le k [] = omega arith
length-increment-le k ((i, n) ∷ m) = ground (arith, length-increment-le k m)

length-tallies-le :
    (m : List (Text × ℕ)) (hs : List (Text × Text)) → length m ≤ length (tallies m hs)
unfolding tallies
length-tallies-le m [] = omega arith
length-tallies-le m ((f, ip) ∷ hs) =
    omega
      (arith, length-tallies-le (increment (key_of f ip) m) hs, length-increment-le (key_of f ip) m)

length-increment-new :
    (k : Text) (m : List (Text × ℕ)) → exists_in k m ≡ false → length (increment k m) ≡ length m + 1
unfolding increment exists_in
length-increment-new k [] h = refl
length-increment-new k ((i, n) ∷ m) h = ground (arith, length-increment-new k m)

-- With room for one more pair, or none needed, nothing is evicted.
ready-roomy :
    (t : Tracker) (key : Text)
    → length (increment key t.counts) ≤ t.max_entries
    → (u : Tracker) × (ready t key ≡ some u)
      × (u.counts ≡ t.counts)
      × (u.max_entries ≡ t.max_entries)
unfolding ready admit
ready-roomy t key room = elim (Bool-cases (exists_in key t.counts)) [
  | inl e ↦ (t, ground arith, refl, refl)
  | inr e ↦ (
    record t { order = t.order ++ key ∷ [] },
    ground (arith, length-increment-new key t.counts),
    refl,
    refl,
  )
]

counts-record_seen :
    (t : Tracker) (key : Text) → (record_seen t key).0.counts ≡ increment key t.counts
unfolding record_seen
counts-record_seen t key = refl

run-tallies :
    (t : Tracker) (hs : List (Text × Text))
    → length (tallies t.counts hs) ≤ t.max_entries
    → (u : Tracker) × (run t hs ≡ some u)
      × (u.counts ≡ tallies t.counts hs)
      × (u.max_entries ≡ t.max_entries)
unfolding run tallies
run-tallies t [] h = (t, refl, refl, refl)
run-tallies t ((f, ip) ∷ hs) h =
    let (u, made, same, max) =
      ready-roomy t (key_of f ip)
        (omega (arith, h, length-tallies-le (increment (key_of f ip) t.counts) hs)) in
    let next : Tracker = record u { counts = increment (key_of f ip) u.counts } in
    let e = ap (increment (key_of f ip)) same in
    let (w, ran, counts, max') = run-tallies next hs (rw e (omega (arith, h, max))) in
    (
      w,
      rw (seen-ready t u f ip made, run) (unfold record_seen in ran),
      counts ∙ ap (λ m. tallies m hs) e,
      max' ∙ max,
    )

record_seen-eq :
    (u : Tracker) (key : Text) (m : List (Text × ℕ))
    → u.counts ≡ m
    → (record_seen u key).1 ≡ leb 3 (tally key m + 1)
unfolding record_seen
record_seen-eq u key m e = ground (arith, tally-increment key key u.counts, eq_refl key)

tally-nil : (key : Text) → tally key [] ≡ 0
unfolding tally
tally-nil key = refl

-- While the history, this submission with it, fills no more entries of a table without a bound than the
-- tracker was made for, the answer is exact: true if and only if a submission of the same form from the
-- same address came at least twice before. Form ids hold no NUL byte, which is what separates the two
-- in a key.
pub seen-exact :
    (n : ℕ) (hs : List (Text × Text)) (f ip : Text)
    → 1 ≤ n
    → HasNoNul f
    → AreForms hs
    → length (tallies [] (hs ++ (f, ip) ∷ [])) ≤ n
    → answer_after n hs f ip ≡ some (leb 3 (count (is_pair f ip) hs + 1))
unfolding answer_after new_tracker
seen-exact n hs f ip h form forms room =
    let start : Tracker = record { counts = []; order = []; max_entries = n } in
    let grown = tallies-append [] hs f ip in
    let (u, ran, counts, max) =
      run-tallies start hs
        (omega (arith, room, ap length grown, length-increment-le (key_of f ip) (tallies [] hs))) in
    let (w, made, same, max') =
      ready-roomy u (key_of f ip) (rw counts (omega (arith, room, max, ap length grown))) in
    ground (
      arith,
      ran,
      seen-ready u w f ip made,
      record_seen-eq w (key_of f ip) (tallies [] hs) (same ∙ counts),
      tally-tallies (key_of f ip) [] hs,
      count-pair f ip hs form forms,
      tally-nil (key_of f ip),
    )

tally-without :
    (j k : Text) (m : List (Text × ℕ)) → tally k (without j m) ≡ (if j == k then 0 else tally k m)
unfolding tally without
tally-without j k [] = ground arith
tally-without j k ((i, n) ∷ m) =
    ground (arith, tally-without j k m, eq_iff i j, eq_iff i k, eq_iff j k)

tally-evict :
    (t : Tracker) (order : List Text) (u : Tracker) (key : Text)
    → evict t order ≡ some u
    → tally key u.counts ≤ tally key t.counts
unfolding evict
tally-evict t [] u key h = ground arith
tally-evict t (old ∷ rest) u key h = ground (arith, tally-without old key t.counts)

tally-ready :
    (t u : Tracker) (k key : Text) → ready t k ≡ some u → tally key u.counts ≤ tally key t.counts
unfolding ready admit
tally-ready t u k key h = elim (Option-cases (evict t t.order)) [
  | inl e ↦ ground arith
  | inr (w, e) ↦ ground (arith, tally-evict t t.order w key e)
]

seen-inv :
    (t u : Tracker) (f ip : Text) (b : Bool)
    → seen t f ip ≡ some (u, b)
    → (w : Tracker) × (ready t (key_of f ip) ≡ some w) × (record_seen w (key_of f ip) ≡ (u, b))
unfolding seen
seen-inv t u f ip b h = elim (Option-cases (ready t (key_of f ip))) [
  | inl e ↦ ground arith
  | inr (w, e) ↦ (w, e, ground arith)
]

tally-seen :
    (t u : Tracker) (f ip : Text) (b : Bool) (key : Text)
    → seen t f ip ≡ some (u, b)
    → tally key u.counts ≤ tally key t.counts + (if key_of f ip == key then 1 else 0)
unfolding record_seen
tally-seen t u f ip b key h =
    let (w, made, e) = seen-inv t u f ip b h in
    ground
      (arith, tally-ready t w (key_of f ip) key made, tally-increment (key_of f ip) key w.counts)

tally-run :
    (t u : Tracker) (hs : List (Text × Text)) (key : Text)
    → run t hs ≡ some u
    → tally key u.counts ≤ tally key t.counts + count (has_key key) hs
unfolding run
tally-run t u [] key h = ground arith
tally-run t u ((f, ip) ∷ hs) key h = elim (Option-cases (seen t f ip)) [
  | inl e ↦ ground arith
  | inr ((w, b), e) ↦ ground (arith, tally-seen t w f ip b key e, tally-run w u hs key)
]

answer_after-inv :
    (n : ℕ) (hs : List (Text × Text)) (f ip : Text)
    → answer_after n hs f ip ≡ some true
    → (t u w : Tracker) × (t.counts ≡ []) × (run t hs ≡ some u) × (seen u f ip ≡ some (w, true))
unfolding answer_after new_tracker
answer_after-inv n hs f ip h =
    let t : Tracker = record { counts = []; order = []; max_entries = n } in
    elim (Option-cases (run t hs)) [
      | inl e ↦ ground arith
      | inr (u, e) ↦ elim (Option-cases (seen u f ip)) [
        | inl e' ↦ ground arith
        | inr ((w, b), e') ↦ (t, u, w, refl, e, ground arith)
      ]
    ]

-- Whatever was evicted, a submission is flagged only if one of the same form from the same address
-- came at least twice before, where form ids hold no NUL byte.
pub answer_after_sound :
    (n : ℕ) (hs : List (Text × Text)) (f ip : Text)
    → HasNoNul f
    → AreForms hs
    → answer_after n hs f ip ≡ some true
    → 2 ≤ count (is_pair f ip) hs
unfolding record_seen
answer_after_sound n hs f ip form forms h =
    let key = key_of f ip in
    let (t, u, w, empty, ran, last) = answer_after-inv n hs f ip h in
    let (v, made, e) = seen-inv u w f ip true last in
    ground (
      arith,
      tally-run t u hs key ran,
      count-pair f ip hs form forms,
      tally-nil key,
      tally-ready u v key key made,
      tally-increment key key v.counts,
      eq_refl key,
    )
