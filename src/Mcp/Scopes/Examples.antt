-- ===== src/Mcp/Scopes/Examples.antt =====
-- Runs of the scopes of a token, and their theorems at concrete rows.
use dsforms.Common.{Text, bytes, ◌==◌, trim_space, ◌≡◌, refl, ◌&&◌, List, [], ◌∷◌, arith}
use dsforms.Mcp.Scopes.{
  parse_scopes, validate_scopes, to_text, has, valid, scope_read, scope_delete, unknown,
  nothing_named,
}
use dsforms.Mcp.Scopes.Laws.{is_named, has-parse_scopes}

scopes_run :
    (parse_scopes (bytes " delete" ∷ bytes "admin" ∷ bytes "read" ∷ bytes "delete" ∷ [])
      ≡ scope_read ∷ scope_delete ∷ [])
    × (validate_scopes (bytes "read" ∷ bytes "admin" ∷ []) ≡ unknown (bytes "admin" ∷ []))
    × (validate_scopes (bytes " " ∷ []) ≡ nothing_named)
    × (to_text [] ≡ bytes "none")
unfolding parse_scopes validate_scopes to_text trim_space ◌==◌
scopes_run = (refl, refl, refl, refl)

abbrev a_row : List Text
a_row = bytes " delete" ∷ bytes "admin" ∷ bytes "read" ∷ []

has-parse_scopes_example :
    has (parse_scopes a_row) (bytes "read")
    ≡ (valid (bytes "read") && is_named (bytes "read") a_row)
has-parse_scopes_example = has-parse_scopes a_row (bytes "read")

twice_named :
    (s : Text) → is_named s (bytes "read" ∷ bytes "read" ∷ []) ≡ is_named s (bytes " read" ∷ [])
unfolding is_named trim_space
twice_named s = ground arith
