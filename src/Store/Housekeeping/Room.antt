-- ===== src/Store/Housekeeping/Room.antt =====
-- internal/store/oauth.go: the bound on clients without a grant.
use dsforms.Common.{
  ℕ, zero, suc, ◌-◌, ◌≤◌, if◌then◌else◌, Bool-cases, or-eq-true, length, take, drop,
  take-append-drop, keep, any, count, All, count-append, keep-implied, All-drop, eq_sound, eq_refl,
  ◌==◌, ◌≡◌, refl, ap, subst, inl, inr, Bool, true, false, not, List, [], ◌∷◌, arith,
}
use dsforms.Store.Grants.{Client, Tables}
use dsforms.Store.Housekeeping.{
  newer, delete_clients, has_grant, insert_client, newest_first, idle_clients, evicted,
  make_room_for_oauth_client,
}

count-insert_client :
    (p : Client → Bool) (k : Client) (ks : List Client)
    → count p (insert_client k ks) ≡ count p (k ∷ ks)
unfolding insert_client
count-insert_client p k [] = refl
count-insert_client p k (j ∷ ks) = ground (arith, count-insert_client p k ks)

count-newest_first : (p : Client → Bool) (ks : List Client) → count p (newest_first ks) ≡ count p ks
unfolding newest_first
count-newest_first p [] = refl
count-newest_first p (k ∷ ks) =
    omega (arith, count-insert_client p k (newest_first ks), count-newest_first p ks)

count-le : (p : Client → Bool) (n : ℕ) (ks : List Client) → count p (take n ks) ≤ n
count-le p zero ks = omega arith
count-le p (suc n) [] = omega arith
count-le p (suc n) (k ∷ ks) = ground (arith, count-le p n ks)

abbrev is_named : List Client → Client → Bool
is_named gone k = any (λ j. j.id == k.id) gone

count-none :
    (gone ks : List Client)
    → ((k : Client) → any (λ j. j.id == k.id) ks ≡ true → is_named gone k ≡ true)
    → count (λ k. not (is_named gone k)) ks ≡ 0
count-none gone [] h = refl
count-none gone (k ∷ ks) h =
    ground (
      arith,
      h k (ground (arith, eq_refl k.id)),
      count-none gone ks (λ j e. h j (ground (arith, e))),
    )

insert_client-All :
    (P : Client → Type 0) (k : Client) (ks : List Client)
    → P k
    → All P ks
    → All P (insert_client k ks)
unfolding insert_client
insert_client-All P k [] p ps = (p, tt)
insert_client-All P k (j ∷ ks) p ps =
    elim (newer j k) as (λ b. All P (if b then j ∷ insert_client k ks else k ∷ j ∷ ks)) [
      | true ↦ (ps.0, insert_client-All P k ks p ps.1)
      | false ↦ (p, ps)
    ]

newest_first-All : (P : Client → Type 0) (ks : List Client) → All P ks → All P (newest_first ks)
unfolding newest_first
newest_first-All P [] ps = tt
newest_first-All P (k ∷ ks) ps =
    insert_client-All P k (newest_first ks) ps.0 (newest_first-All P ks ps.1)

abbrev IsIdle : Tables → Client → Type 0
IsIdle db k = has_grant db k ≡ false

keep-IsIdle :
    (db : Tables) (ks : List Client) → All (IsIdle db) (keep (λ k. not (has_grant db k)) ks)
keep-IsIdle db [] = tt
keep-IsIdle db (k ∷ ks) = elim (Bool-cases (has_grant db k)) [
  | inl e ↦ rw e (keep-IsIdle db ks)
  | inr e ↦ rw e (e, keep-IsIdle db ks)
]

evicted-IsIdle : (max : ℕ) (db : Tables) → All (IsIdle db) (evicted max db)
unfolding evicted idle_clients
evicted-IsIdle max db =
    All-drop (IsIdle db) (max - 1) _
      (newest_first-All (IsIdle db) (idle_clients db) (keep-IsIdle db db.clients))

named-IsIdle :
    (db : Tables) (gone : List Client) (k : Client)
    → All (IsIdle db) gone
    → is_named gone k ≡ true
    → IsIdle db k
unfolding has_grant
named-IsIdle db [] k idle e = ground arith
named-IsIdle db (j ∷ gone) k idle e = elim (or-eq-true (j.id == k.id) (is_named gone k) e) [
  | inl same ↦
      subst (λ i. any (λ g. g.client_id == i) db.grants ≡ false) (eq_sound j.id k.id same) idle.0
  | inr later ↦ named-IsIdle db gone k idle.1 later
]

left_of_idle :
    (max : ℕ) (db : Tables)
    → count (λ k. not (is_named (evicted max db) k)) (idle_clients db) ≤ max - 1
unfolding evicted
left_of_idle max db =
    let sorted = newest_first (idle_clients db) in
    let gone = drop (max - 1) sorted in
    let p = λ (k : Client). not (is_named gone k) in
    omega (
      arith,
      count-newest_first p (idle_clients db),
      ap (count p) (take-append-drop (max - 1) sorted),
      count-append p (take (max - 1) sorted) gone,
      count-le p (max - 1) sorted,
      count-none gone gone (λ k e. e),
    )

length-keep-count :
    (p q : Client → Bool) (ks : List Client) → length (keep p (keep q ks)) ≡ count q (keep p ks)
length-keep-count p q [] = refl
length-keep-count p q (k ∷ ks) = ground (arith, length-keep-count p q ks)

-- The clients without a grant that are left are fewer than `max`, or none where `max` is 0, and no
-- client with a grant is deleted.
pub make_room_for_oauth_client_bounded :
    (max : ℕ) (db : Tables)
    → (length (idle_clients (make_room_for_oauth_client max db).0) ≤ max - 1)
      × (keep (has_grant db) (make_room_for_oauth_client max db).0.clients
          ≡ keep (has_grant db) db.clients)
unfolding make_room_for_oauth_client delete_clients idle_clients has_grant
make_room_for_oauth_client_bounded max db = (
  omega (
    arith,
    length-keep-count (λ k. not (has_grant db k)) (λ k. not (is_named (evicted max db) k))
        db.clients,
    left_of_idle max db,
  ),
  keep-implied (has_grant db) (λ k. not (is_named (evicted max db) k)) db.clients
      (λ k e. ground (arith, e, named-IsIdle db (evicted max db) k (evicted-IsIdle max db))),
)
