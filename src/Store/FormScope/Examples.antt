-- ===== src/Store/FormScope/Examples.antt =====
-- Runs of the form scope, and its theorems at concrete scopes.
use dsforms.Common.{
  ◌=ℕ◌, length, count, Text, bytes, ◌==◌, split, join, trim_space, ◌≡◌, refl, false, some, List, [],
  ◌∷◌,
}
use dsforms.Store.FormScope.{
  trimmed, zero_value, only_forms, parse_form_scope, allows, clause, to_text,
}
use dsforms.Store.FormScope.Laws.{parse_form_scope-join}
use dsforms.Store.FormScope.Sql.{admits, admits-clause}

clause_run :
    (clause (only_forms (bytes "a" ∷ bytes " " ∷ bytes " b" ∷ [])) (bytes "s.form_id")
      ≡ (bytes " AND s.form_id IN (?,?)", bytes "a" ∷ bytes "b" ∷ []))
    × (clause zero_value (bytes "form_id") ≡ (bytes " AND 1 = 0", []))
    × (to_text (parse_form_scope (bytes " a , b")) ≡ bytes "a,b")
unfolding clause only_forms parse_form_scope to_text trimmed trim_space split join ◌==◌
clause_run = (refl, refl, refl)

abbrev two_forms : List Text
two_forms = bytes "f1" ∷ bytes "f2" ∷ []

admits-clause_example :
    (admits (bytes "form_id") (clause (only_forms two_forms) (bytes "form_id")) (bytes "f2")
      ≡ some (allows (only_forms two_forms) (bytes "f2")))
    × (count (λ c. c =ℕ b'?') (clause (only_forms two_forms) (bytes "form_id")).0
        ≡ length (clause (only_forms two_forms) (bytes "form_id")).1)
admits-clause_example = admits-clause (only_forms two_forms) (bytes "form_id") (bytes "f2") refl

trimmed_forms :
    (trim_space (bytes "f1") ≡ bytes "f1")
    × (trim_space (bytes "f2") ≡ bytes "f2")
    × (trim_space (join (bytes ",") two_forms) ≡ bytes "f1,f2")
unfolding trim_space join
trimmed_forms = (refl, refl, refl)

parse_form_scope-join_example :
    parse_form_scope (join (bytes ",") two_forms) ≡ record { all = false; ids = two_forms }
parse_form_scope-join_example =
    parse_form_scope-join (bytes "f1") (bytes "f2" ∷ [])
      (
        ((refl, (refl, tt)), trimmed_forms.0, (λ e. cc e)),
        (((refl, (refl, tt)), trimmed_forms.1, (λ e. cc e)), tt),
      )
      (λ e. cc (trimmed_forms.2, e))
