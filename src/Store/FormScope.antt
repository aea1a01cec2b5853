-- ===== src/Store/FormScope.antt =====
-- internal/store/formscope.go: the set of forms that a query may reach, and the SQL it becomes.
pub mod Laws
pub mod Sql
mod Examples
use dsforms.Common.{
  ℕ, zero, suc, ◌-◌, ◌=ℕ◌, Text, bytes, ◌==◌, split, join, trim_space, mem, length, if◌then◌else◌,
  Bool, true, false, List, [], ◌∷◌, ◌++◌,
}

pub record FormScope : Type 0 where
  pub all : Bool
  pub ids : List Text

abbrev pub zero_value : FormScope
zero_value = record { all = false; ids = [] }

unfoldable pub all_forms : FormScope
all_forms = record { all = true; ids = [] }

-- `strings.TrimSpace`, and what is left blank is dropped.
unfoldable pub trimmed : List Text → List Text
trimmed [] = []
trimmed (id ∷ rest) =
    let out = trimmed rest in let t = trim_space id in if t == [] then out else t ∷ out

unfoldable pub only_forms : List Text → FormScope
only_forms ids = record { all = false; ids = trimmed ids }

unfoldable pub parse_form_scope : Text → FormScope
unfolding all_forms only_forms
parse_form_scope stored =
    if trim_space stored == [] then all_forms else only_forms (split b',' stored)

unfoldable pub allows : FormScope → Text → Bool
allows f form_id = if f.all then true else mem form_id f.ids

-- `strings.Repeat(",?", n)`
repeat : ℕ → Text
repeat zero = []
repeat (suc n) = bytes ",?" ++ repeat n

-- The text that is added to a WHERE, and its arguments.
unfoldable pub clause : FormScope → Text → Text × List Text
unfolding repeat
clause f col = if f.all then ([], []) else if length f.ids =ℕ 0 then (bytes " AND 1 = 0", []) else (
  bytes " AND " ++ (col ++ (bytes " IN (?" ++ (repeat (length f.ids - 1) ++ bytes ")"))),
  f.ids,
)

unfoldable pub to_text : FormScope → Text
to_text f =
    if f.all
    then bytes "all forms"
    else if length f.ids =ℕ 0
    then bytes "no forms"
    else join (bytes ",") f.ids
