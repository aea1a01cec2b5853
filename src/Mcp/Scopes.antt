-- ===== src/Mcp/Scopes.antt =====
-- internal/mcpserver/scope.go: the three scopes of a token, read tolerantly from a stored row and
-- strictly from what a caller typed. A scope is a string, as in the source.
pub mod Laws
mod Examples
use dsforms.Common.{
  ◌=ℕ◌, if◌then◌else◌, length, keep, Text, bytes, ◌==◌, join, trim_space, mem, Bool, ◌||◌, not,
  List, [], ◌∷◌,
}

abbrev pub scope_read : Text
scope_read = bytes "read"

abbrev pub scope_write : Text
scope_write = bytes "write"

abbrev pub scope_delete : Text
scope_delete = bytes "delete"

abbrev pub all_scopes : List Text
all_scopes = scope_read ∷ scope_write ∷ scope_delete ∷ []

unfoldable pub valid : Text → Bool
valid s = (s == scope_read) || (s == scope_write) || (s == scope_delete)

-- The keys of the map `seen` after the loop of `ParseScopes`.
unfoldable pub seen_valid : List Text → List Text
unfolding valid
seen_valid [] = []
seen_valid (r ∷ raw) =
    let rest = seen_valid raw in let s = trim_space r in if valid s then s ∷ rest else rest

unfoldable pub parse_scopes : List Text → List Text
unfolding seen_valid mem
parse_scopes raw = keep (λ s. mem s (seen_valid raw)) all_scopes

unfoldable pub has : List Text → Text → Bool
unfolding mem
has scopes want = mem want scopes

-- `String` and `Key`; `Strings` copies the list.
unfoldable pub key : List Text → Text
unfolding join
key scopes = join (bytes ",") scopes

unfoldable pub to_text : List Text → Text
unfolding join
to_text scopes = if length scopes =ℕ 0 then bytes "none" else join (bytes ",") scopes

pub data Outcome : Type 0 where
  accepted : List Text → Outcome
  unknown : List Text → Outcome
  nothing_named : Outcome

-- What the loop of `ValidateScopes` finds: the unknown entries, and the known ones.
unfoldable pub sift : List Text → List Text × List Text
unfolding valid
sift [] = ([], [])
sift (r ∷ raw) =
    let (bad, seen) = sift raw in
    let s = trim_space r in
    if s == [] then (bad, seen) else if not (valid s) then (s ∷ bad, seen) else (bad, s ∷ seen)

unfoldable pub validate_scopes : List Text → Outcome
unfolding sift mem
validate_scopes raw =
    let (bad, seen) = sift raw in
    if not (length bad =ℕ 0)
    then unknown bad
    else if length seen =ℕ 0
    then nothing_named
    else accepted (keep (λ s. mem s seen) all_scopes)
