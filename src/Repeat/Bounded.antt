-- ===== src/Repeat/Bounded.antt =====
-- The tracker never panics and never outgrows its bound.
use dsforms.Common.{
  ℕ, suc, ◌+◌, ◌≤◌, ◌<◌, Text, ◌==◌, Bool, ◌≡◌, refl, ap, true, false, length, leb, if◌then◌else◌,
  some, List, [], ◌∷◌, ◌++◌, arith, eq_iff, eq_refl, Bool-cases, inl, inr, tests, subst, ◌∙◌,
}
use dsforms.Repeat.{
  Tracker, exists_in, increment, without, key_of, evict, admit, record_seen, ready, seen, run,
  new_tracker,
}

unfoldable pub keys : List (Text × ℕ) → List Text
keys [] = []
keys ((k, n) ∷ m) = k ∷ keys m

-- No key twice, and every tally at least 1.
abbrev pub IsTable : List (Text × ℕ) → Type 0
IsTable [] = Unit
IsTable ((k, n) ∷ m) = (1 ≤ n) × (exists_in k m ≡ false) × IsTable m

pub record IsValid (t : Tracker) : Type 0 where
  pub table : IsTable t.counts
  pub same_order : t.order ≡ keys t.counts
  pub bounded : length t.counts ≤ t.max_entries
  pub room : 1 ≤ t.max_entries

length-keys : (m : List (Text × ℕ)) → length (keys m) ≡ length m
unfolding keys
length-keys [] = refl
length-keys ((k, n) ∷ m) = ap suc (length-keys m)

exists_in-increment :
    (j k : Text) (m : List (Text × ℕ))
    → exists_in j (increment k m) ≡ (if k == j then true else exists_in j m)
unfolding exists_in increment
exists_in-increment j k [] = refl
exists_in-increment j k ((i, n) ∷ m) =
    ground (arith, exists_in-increment j k m, eq_iff i k, eq_iff i j, eq_iff k j)

increment-IsTable : (k : Text) (m : List (Text × ℕ)) → IsTable m → IsTable (increment k m)
unfolding increment exists_in
increment-IsTable k [] h = (omega arith, refl, tt)
increment-IsTable k ((i, n) ∷ m) h = elim (Bool-cases (i == k)) [
  | inl e ↦ rw e (omega arith, h.1, h.2)
  | inr e ↦ rw e (
    h.0,
    rw exists_in-increment (ground (arith, eq_iff i k, eq_iff k i, h.1)),
    increment-IsTable k m h.2,
  )
]

keys-increment :
    (k : Text) (m : List (Text × ℕ))
    → keys (increment k m) ≡ (if exists_in k m then keys m else keys m ++ k ∷ [])
unfolding keys increment exists_in
keys-increment k [] = refl
keys-increment k ((i, n) ∷ m) = ground (arith, keys-increment k m)

without-absent : (k : Text) (m : List (Text × ℕ)) → exists_in k m ≡ false → without k m ≡ m
unfolding without exists_in
without-absent k [] h = refl
without-absent k ((i, n) ∷ m) h = ground (arith, without-absent k m)

-- Evicting takes the head of the table.
evict-cons :
    (t : Tracker) (k : Text) (n : ℕ) (m : List (Text × ℕ))
    → t.counts ≡ (k, n) ∷ m
    → t.order ≡ k ∷ keys m
    → exists_in k m ≡ false
    → evict t t.order ≡ some (record t { counts = m; order = keys m })
unfolding evict without
evict-cons t k n m e o h = rw (o, evict) (rw e (rw (eq_refl k) (rw (without-absent k m h))))

absent-tail :
    (key k : Text) (n : ℕ) (m : List (Text × ℕ))
    → exists_in key ((k, n) ∷ m) ≡ false
    → exists_in key m ≡ false
unfolding exists_in
absent-tail key k n m h = ground arith

-- What `admit` leaves: a table with room, and an order that already names the key.
pub record IsReady (t : Tracker) (key : Text) (u : Tracker) : Type 0 where
  pub table : IsTable u.counts
  pub absent : exists_in key u.counts ≡ false
  pub named : u.order ≡ keys u.counts ++ key ∷ []
  pub bounded : length u.counts < u.max_entries
  pub same_max : u.max_entries ≡ t.max_entries

admit-free :
    (t : Tracker) (key : Text)
    → leb t.max_entries (length t.counts) ≡ false
    → admit t key ≡ some (record t { order = t.order ++ key ∷ [] })
unfolding admit
admit-free t key h = ground arith

admit-full :
    (t u : Tracker) (key : Text)
    → leb t.max_entries (length t.counts) ≡ true
    → evict t t.order ≡ some u
    → admit t key ≡ some (record u { order = u.order ++ key ∷ [] })
unfolding admit
admit-full t u key h e = ground arith

admit-evicting :
    (t : Tracker) (key : Text) (m : List (Text × ℕ))
    → IsValid t
    → exists_in key t.counts ≡ false
    → t.counts ≡ m
    → leb t.max_entries (length t.counts) ≡ true
    → (u : Tracker) × (admit t key ≡ some u) × IsReady t key u
admit-evicting t key [] v fresh e full = absurd (omega (tests, ap length e, v.room))
admit-evicting t key ((k, n) ∷ m) v fresh e full =
    let old : IsTable ((k, n) ∷ m) = subst IsTable e v.table in
    let named : t.order ≡ k ∷ keys m = v.same_order ∙ (unfold keys in ap keys e) in
    (
      record t { counts = m; order = keys m ++ key ∷ [] },
      admit-full t (record t { counts = m; order = keys m }) key full
          (evict-cons t k n m e named old.1),
      record {
        table = old.2;
        absent = absent-tail key k n m (rw e at fresh);
        named = refl;
        bounded = omega (arith, ap length e, v.bounded);
        same_max = refl;
      },
    )

admit-IsReady :
    (t : Tracker) (key : Text)
    → IsValid t
    → exists_in key t.counts ≡ false
    → (u : Tracker) × (admit t key ≡ some u) × IsReady t key u
admit-IsReady t key v fresh = elim (Bool-cases (leb t.max_entries (length t.counts))) [
  | inl full ↦ admit-evicting t key t.counts v fresh refl full
  | inr free ↦ (
    record t { order = t.order ++ key ∷ [] },
    admit-free t key free,
    record {
      table = v.table;
      absent = fresh;
      named = rw v.same_order;
      bounded = ground arith;
      same_max = refl;
    },
  )
]

length-increment :
    (k : Text) (m : List (Text × ℕ))
    → length (increment k m) ≡ (if exists_in k m then length m else length m + 1)
unfolding increment exists_in
length-increment k [] = refl
length-increment k ((i, n) ∷ m) = ground (arith, length-increment k m)

-- The state that `seen` leaves once there is room for the key.
record_seen-known :
    (t : Tracker) (key : Text)
    → IsValid t
    → exists_in key t.counts ≡ true
    → IsValid (record_seen t key).0
unfolding record_seen
record_seen-known t key v e = record {
  table = increment-IsTable key t.counts v.table;
  same_order = ground (arith, keys-increment key t.counts, v.same_order);
  bounded = ground (arith, length-increment key t.counts, v.bounded);
  room = v.room;
}

record_seen-new :
    (t u : Tracker) (key : Text)
    → 1 ≤ t.max_entries
    → IsReady t key u
    → IsValid (record_seen u key).0
unfolding record_seen
record_seen-new t u key room r = record {
  table = increment-IsTable key u.counts r.table;
  same_order = ground (arith, keys-increment key u.counts, r.named, r.absent);
  bounded = ground (arith, length-increment key u.counts, r.bounded, r.absent);
  room = ground (arith, r.same_max);
}

ready-known : (t : Tracker) (key : Text) → exists_in key t.counts ≡ true → ready t key ≡ some t
unfolding ready
ready-known t key h = ground arith

ready-new :
    (t u : Tracker) (key : Text)
    → exists_in key t.counts ≡ false
    → admit t key ≡ some u
    → ready t key ≡ some u
unfolding ready
ready-new t u key h e = ground arith

pub seen-ready :
    (t u : Tracker) (f ip : Text)
    → ready t (key_of f ip) ≡ some u
    → seen t f ip ≡ some (record_seen u (key_of f ip))
unfolding seen
seen-ready t u f ip e = rw (e, seen)

-- `ready` always has an answer, from which counting keeps the tracker valid.
ready-total :
    (t : Tracker) (key : Text)
    → IsValid t
    → (u : Tracker) × (ready t key ≡ some u)
      × IsValid (record_seen u key).0
      × (u.max_entries ≡ t.max_entries)
ready-total t key v = elim (Bool-cases (exists_in key t.counts)) [
  | inl e ↦ (t, ready-known t key e, record_seen-known t key v e, refl)
  | inr e ↦
      let (u, made, r) = admit-IsReady t key v e in
      (u, ready-new t u key e made, record_seen-new t u key v.room r, r.same_max)
]

-- From a valid tracker `Seen` never panics, and leaves a valid tracker with the same bound.
pub seen-IsValid :
    (t : Tracker) (f ip : Text)
    → IsValid t
    → (u : Tracker) × (b : Bool) × (seen t f ip ≡ some (u, b))
      × IsValid u
      × (u.max_entries ≡ t.max_entries)
unfolding record_seen
seen-IsValid t f ip v =
    let (u, made, valid, same) = ready-total t (key_of f ip) v in
    (
      (record_seen u (key_of f ip)).0,
      (record_seen u (key_of f ip)).1,
      seen-ready t u f ip made,
      valid,
      same,
    )

new_tracker-IsValid :
    (n : ℕ) → 1 ≤ n → (t : Tracker) × (new_tracker n ≡ some t) × IsValid t × (t.max_entries ≡ n)
unfolding new_tracker keys
new_tracker-IsValid n h = (
  record { counts = []; order = []; max_entries = n },
  ground arith,
  record { table = tt; same_order = refl; bounded = omega arith; room = h },
  refl,
)

run-IsValid :
    (t : Tracker) (hs : List (Text × Text))
    → IsValid t
    → (u : Tracker) × (run t hs ≡ some u) × IsValid u × (u.max_entries ≡ t.max_entries)
unfolding run
run-IsValid t [] v = (t, refl, v, refl)
run-IsValid t ((f, ip) ∷ hs) v =
    let (u, b, e, valid, same) = seen-IsValid t f ip v in
    let (w, e', valid', same') = run-IsValid u hs valid in (w, rw (e, run) e', valid', same' ∙ same)

-- A tracker that is made for at least one entry answers every sequence of submissions without a
-- panic. Then no pair is tracked twice, the eviction order lists exactly the pairs that are tracked,
-- and there are at most as many of them as the tracker was made for.
pub new_tracker-run :
    (n : ℕ) (hs : List (Text × Text))
    → 1 ≤ n
    → (t u : Tracker) × (new_tracker n ≡ some t)
      × (run t hs ≡ some u)
      × IsTable u.counts
      × (u.order ≡ keys u.counts)
      × (length u.counts ≤ n)
new_tracker-run n hs h =
    let (t, made, v, max) = new_tracker-IsValid n h in
    let (u, e, valid, same) = run-IsValid t hs v in
    (t, u, made, e, valid.table, valid.same_order, omega (arith, valid.bounded, same, max))
