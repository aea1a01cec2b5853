-- ===== src/Screen/Addr.antt =====
-- internal/screen/internal/addr/addr.go: what counts as an address, and who counts as the sender. A
-- submission is the list of its fields, in the order in which the map is walked.
pub mod Sender
pub mod Canonical
use dsforms.Common.{
  ℕ, zero, suc, ◌+◌, ◌=ℕ◌, if◌then◌else◌, any, Text, bytes, ◌==◌, contains, occurrences, after_last,
  trim_space, ascii_lower, Bool, true, false, ◌&&◌, ◌||◌, not, Option, none, some, List, [], ◌∷◌,
}
use dsforms.Screen.Platform.{Platform}

pub data SenderState : Type 0 where
  sender_none sender_one sender_ambiguous : SenderState

-- The loop of `SenderAddress`: the value found last, and how many were found.
unfoldable pub claimants : List (Text × Text) → Text × ℕ → Text × ℕ
unfolding ascii_lower
claimants [] found = found
claimants ((k, v) ∷ fs) (addr, found) =
    claimants fs (if ascii_lower k == bytes "email" then (v, found + 1) else (addr, found))

unfoldable pub resolve : Text × ℕ → Text × SenderState
resolve (addr, zero) = ([], sender_none)
resolve (addr, suc zero) = (addr, sender_one)
resolve (addr, suc (suc n)) = ([], sender_ambiguous)

unfoldable pub sender_address : List (Text × Text) → Text × SenderState
unfolding claimants resolve
sender_address fs = resolve (claimants fs ([], 0))

-- `strings.ContainsAny(v, " \t\n")`
unfoldable pub has_blank : Text → Bool
has_blank v = any (λ c. (c =ℕ 32) || (c =ℕ 9) || (c =ℕ 10)) v

-- `v[strings.LastIndex(v, "@")+1:]`, which is all of `v` where there is no `@`
unfoldable pub after_at : Text → Text
unfolding after_last
after_at v = elim (after_last b'@' v) [ none ↦ v | some host ↦ host ]

unfoldable pub shaped : Text → Option Text
unfolding after_at has_blank occurrences contains
shaped v =
    if (occurrences v (bytes "@") =ℕ 1) && not (has_blank v) && contains (after_at v) (bytes ".")
    then some v
    else none

unfoldable pub canonical : Platform → Text → Option Text
unfolding shaped trim_space ascii_lower
canonical p value =
    let v = trim_space value in
    let plain = shaped (ascii_lower v) in
    elim (p.parse_address v) [
      | none ↦ plain
      | some address ↦ elim (shaped (ascii_lower address)) [ none ↦ plain | some a ↦ some a ]
    ]

unfoldable pub sender_valid : Platform → List (Text × Text) → Bool
unfolding sender_address
sender_valid p fs = elim (sender_address fs).1 [
  | sender_none ↦ true
  | sender_one ↦ elim (p.parse_address (sender_address fs).0) [ none ↦ false | some a ↦ true ]
  | sender_ambiguous ↦ false
]
