-- ===== src/Repeat.antt =====
-- internal/screen/internal/repeat/repeat.go: the bounded counter of submissions for each form and
-- address. The map `counts` is an association list whose new keys go to the end; `none` is a panic.
pub mod Bounded
pub mod Exact
mod Examples
use dsforms.Common.{
  ℕ, ◌+◌, Text, ◌==◌, Bool, true, false, length, leb, if◌then◌else◌, Option, none, some, List, [],
  ◌∷◌, ◌++◌,
}

pub record Tracker : Type 0 where
  pub counts : List (Text × ℕ)
  pub order : List Text
  pub max_entries : ℕ

unfoldable pub new_tracker : ℕ → Option Tracker
new_tracker max_entries =
    if leb max_entries 0
    then none
    else some (record { counts = []; order = []; max_entries = max_entries })

unfoldable pub exists_in : Text → List (Text × ℕ) → Bool
exists_in key [] = false
exists_in key ((k, n) ∷ m) = if k == key then true else exists_in key m

-- `counts[key]`, which is 0 for a key that is not there
unfoldable pub tally : Text → List (Text × ℕ) → ℕ
tally key [] = 0
tally key ((k, n) ∷ m) = if k == key then n else tally key m

-- `counts[key]++`
unfoldable pub increment : Text → List (Text × ℕ) → List (Text × ℕ)
increment key [] = (key, 1) ∷ []
increment key ((k, n) ∷ m) =
    let rest = increment key m in if k == key then (k, n + 1) ∷ m else (k, n) ∷ rest

-- `delete(counts, key)`
unfoldable pub without : Text → List (Text × ℕ) → List (Text × ℕ)
without key [] = []
without key ((k, n) ∷ m) = let rest = without key m in if k == key then rest else (k, n) ∷ rest

unfoldable pub key_of : Text → Text → Text
key_of form_id ip = form_id ++ 0 ∷ ip

-- The eviction of the pair that was inserted first; `order[0]` of an empty slice is a panic.
unfoldable pub evict : Tracker → List Text → Option Tracker
unfolding without
evict t [] = none
evict t (oldest ∷ rest) = some (record t { counts = without oldest t.counts; order = rest })

-- Room for a new key, which joins the end of the order.
unfoldable pub admit : Tracker → Text → Option Tracker
unfolding evict
admit t key =
    let full = evict t t.order in
    let made = (if leb t.max_entries (length t.counts) then full else some t) in
    elim made [ none ↦ none | some u ↦ some (record u { order = u.order ++ key ∷ [] }) ]

unfoldable pub record_seen : Tracker → Text → Tracker × Bool
unfolding increment tally
record_seen t key =
    let counts = increment key t.counts in (record t { counts = counts }, leb 3 (tally key counts))

-- The first half of `Seen`: a key that is not there yet is admitted.
unfoldable pub ready : Tracker → Text → Option Tracker
unfolding admit exists_in
ready t key = let made = admit t key in if exists_in key t.counts then some t else made

unfoldable pub seen : Tracker → Text → Text → Option (Tracker × Bool)
unfolding ready record_seen key_of
seen t form_id ip =
    let key = key_of form_id ip in
    elim (ready t key) [ none ↦ none | some u ↦ some (record_seen u key) ]

-- A sequence of submissions, with the last answer.
unfoldable pub run : Tracker → List (Text × Text) → Option Tracker
unfolding seen
run t [] = some t
run t ((form_id, ip) ∷ rest) = elim (seen t form_id ip) [ none ↦ none | some (u, b) ↦ run u rest ]

-- The answer to one more submission of a pair after a history.
unfoldable pub answer_after : ℕ → List (Text × Text) → Text → Text → Option Bool
unfolding new_tracker run
answer_after n hs f ip = elim (new_tracker n) [
  | none ↦ none
  | some t ↦ elim (run t hs) [
    | none ↦ none
    | some u ↦ elim (seen u f ip) [ none ↦ none | some (w, b) ↦ some b ]
  ]
]
