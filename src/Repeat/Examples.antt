-- ===== src/Repeat/Examples.antt =====
-- Runs of the repeat tracker, and its theorems at concrete histories.
use dsforms.Common.{
  ◌+◌, ◌≤◌, leb, length, count, Text, ◌==◌, ◌≡◌, refl, true, false, some, List, [], ◌∷◌, ◌++◌,
  arith,
}
use dsforms.Repeat.{Tracker, new_tracker, run, answer_after}
use dsforms.Repeat.Bounded.{IsTable, keys, new_tracker-run}
use dsforms.Repeat.Exact.{tallies, is_pair, AreForms, seen-exact, answer_after_sound}

abbrev one_two_one : List (Text × Text)
one_two_one = (1 ∷ [], 2 ∷ []) ∷ (1 ∷ [], 3 ∷ []) ∷ (1 ∷ [], 2 ∷ []) ∷ []

-- The third submission of a pair is flagged; with one entry the pair that came between evicts it.
third_is_flagged :
    (answer_after 2 one_two_one (1 ∷ []) (2 ∷ []) ≡ some true)
    × (answer_after 1 one_two_one (1 ∷ []) (2 ∷ []) ≡ some false)
unfolding answer_after ◌==◌
third_is_flagged = (refl, refl)

new_tracker-run_example :
    (t u : Tracker) × (new_tracker 1 ≡ some t)
    × (run t one_two_one ≡ some u)
    × IsTable u.counts
    × (u.order ≡ keys u.counts)
    × (length u.counts ≤ 1)
new_tracker-run_example = new_tracker-run 1 one_two_one (omega arith)

two_forms : AreForms one_two_one
two_forms = ((refl, tt), ((refl, tt), ((refl, tt), tt)))

room_for_two : length (tallies [] (one_two_one ++ (1 ∷ [], 2 ∷ []) ∷ [])) ≤ 2
unfolding answer_after ◌==◌ tallies
room_for_two = omega arith

seen-exact_example :
    answer_after 2 one_two_one (1 ∷ []) (2 ∷ [])
    ≡ some (leb 3 (count (is_pair (1 ∷ []) (2 ∷ [])) one_two_one + 1))
seen-exact_example =
    seen-exact 2 one_two_one (1 ∷ []) (2 ∷ []) (omega arith) (refl, tt) two_forms room_for_two

answer_after_sound_example : 2 ≤ count (is_pair (1 ∷ []) (2 ∷ [])) one_two_one
answer_after_sound_example =
    answer_after_sound 2 one_two_one (1 ∷ []) (2 ∷ []) (refl, tt) two_forms third_is_flagged.0
