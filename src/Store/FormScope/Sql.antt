-- ===== src/Store/FormScope/Sql.antt =====
-- internal/store/formscope.go: the SQL of a scope, read as SQLite reads it.
use dsforms.Common.{
  ℕ, zero, suc, ◌+◌, ◌=ℕ◌, if◌then◌else◌, ◌>>=◌, =ℕ_refl, Bool-cases, length, length-append, take,
  drop, count, count-append, Text, bytes, ◌==◌, mem, ◌≡◌, refl, ◌∙◌, inl, inr, Bool, true, false,
  ◌&&◌, not, Option, none, some, List, [], ◌∷◌, ◌++◌, arith,
}
use dsforms.Store.FormScope.{FormScope, allows, clause, repeat}

abbrev is_mark : ℕ → Bool
is_mark c = c =ℕ b'?'

count-repeat : (n : ℕ) → count is_mark (repeat n) ≡ n
unfolding repeat
count-repeat zero = refl
count-repeat (suc n) = ground (arith, count-repeat n)

-- The text after a prefix.
strip : Text → Text → Option Text
strip [] t = some t
strip (c ∷ p) [] = none
strip (c ∷ p) (d ∷ t) = let rest = strip p t in if c =ℕ d then rest else none

strip-append : (p q t : Text) → strip (p ++ q) (p ++ t) ≡ strip q t
unfolding strip
strip-append [] q t = refl
strip-append (c ∷ p) q t = rw (=ℕ_refl c, strip-append p q t) refl

closed : ℕ → Text → List Text → Bool
closed c rest args = (c =ℕ b')') && (length rest =ℕ 0) && (length args =ℕ 0)

-- Placeholders between commas, up to the closing parenthesis: each takes one argument, and all the
-- arguments have to be taken.
placeholders : Text → List Text → Option (List Text)
placeholders [] args = none
placeholders (m ∷ []) args = none
placeholders (m ∷ c ∷ rest) [] = none
placeholders (m ∷ c ∷ rest) (a ∷ args) =
    let later = placeholders rest args in
    if not (m =ℕ b'?')
    then none
    else if closed c rest args
    then some (a ∷ [])
    else if c =ℕ b','
    then (do vs ← later; some (a ∷ vs))
    else none

placeholders-repeat :
    (x : Text) (xs : List Text)
    → placeholders (b'?' ∷ (repeat (length xs) ++ bytes ")")) (x ∷ xs) ≡ some (x ∷ xs)
unfolding repeat placeholders closed
placeholders-repeat x [] = refl
placeholders-repeat x (y ∷ ys) = rw (placeholders-repeat y ys) refl

-- `a = b` of two digits.
literal : Text → Option Bool
literal text = do right ← strip (bytes " = ") (drop 1 text); some (take 1 text == right)

listed : Text → Text → Text → List Text → Option Bool
listed col form_id text args = do
  marks ← strip (col ++ bytes " IN (") text
  vs ← placeholders marks args
  some (mem form_id vs)

condition : Text → Text → Text → List Text → Option Bool
condition col form_id text args =
    if length text =ℕ 5
    then (if length args =ℕ 0 then literal text else none)
    else listed col form_id text args

-- How SQLite reads the clause after the conditions of a WHERE, for a row whose column `col` holds
-- `form_id`: nothing, or AND with a comparison of two digits, or AND with a list of placeholders that the
-- column has to be in. `none` is a statement that is not read, or has too many or too few arguments.
pub admits : Text → Text × List Text → Text → Option Bool
admits col ([], []) form_id = some true
admits col ([], a ∷ args) form_id = none
admits col (c ∷ text, args) form_id = do
  rest ← strip (bytes " AND ") (c ∷ text)
  condition col form_id rest args

-- The text for the forms `x ∷ xs`.
in_text : Text → ℕ → Text
in_text col n = bytes " AND " ++ (col ++ (bytes " IN (?" ++ (repeat n ++ bytes ")")))

count-in_text : (col : Text) (n : ℕ) → count is_mark (in_text col n) ≡ count is_mark col + suc n
unfolding in_text
count-in_text col n = ground (
  arith,
  count-append is_mark col (bytes " IN (?" ++ (repeat n ++ bytes ")")),
  count-append is_mark (repeat n) (bytes ")"),
  count-repeat n,
)

clause-cons :
    (x : Text) (xs : List Text) (col : Text)
    → clause (record { all = false; ids = x ∷ xs }) col ≡ (in_text col (length xs), x ∷ xs)
unfolding clause in_text
clause-cons x xs col = ground arith

listed-length : (col t : Text) → (length (col ++ (bytes " IN (?" ++ t)) =ℕ 5) ≡ false
listed-length col t = ground (arith, length-append col (bytes " IN (?" ++ t))

listed-repeat :
    (col id x : Text) (xs : List Text)
    → listed col id (col ++ (bytes " IN (?" ++ (repeat (length xs) ++ bytes ")"))) (x ∷ xs)
      ≡ some (mem id (x ∷ xs))
unfolding listed
listed-repeat col id x xs =
    let marks = b'?' ∷ (repeat (length xs) ++ bytes ")") in
    let stripped : strip (col ++ bytes " IN (") (col ++ (bytes " IN (" ++ marks)) ≡ some marks =
      strip-append col (bytes " IN (") (bytes " IN (" ++ marks) ∙ unfold strip in refl in
    rw (stripped, placeholders-repeat x xs) refl

condition-repeat :
    (col id x : Text) (xs : List Text)
    → condition col id (col ++ (bytes " IN (?" ++ (repeat (length xs) ++ bytes ")"))) (x ∷ xs)
      ≡ some (mem id (x ∷ xs))
unfolding condition
condition-repeat col id x xs =
    rw (listed-length col (repeat (length xs) ++ bytes ")")) (listed-repeat col id x xs)

admits-in_text :
    (col id x : Text) (xs : List Text)
    → admits col (in_text col (length xs), x ∷ xs) id ≡ some (mem id (x ∷ xs))
unfolding in_text admits strip
admits-in_text col id x xs = condition-repeat col id x xs

clause_limited :
    (ids : List Text) (col form_id : Text)
    → count is_mark col ≡ 0
    → (admits col (clause (record { all = false; ids = ids }) col) form_id ≡ some (mem form_id ids))
      × (count is_mark (clause (record { all = false; ids = ids }) col).0
          ≡ length (clause (record { all = false; ids = ids }) col).1)
clause_limited [] col form_id h =
    unfold admits clause mem ◌==◌ strip condition literal in (refl, refl)
clause_limited (x ∷ xs) col form_id h =
    rw (clause-cons x xs col)
      (admits-in_text col form_id x xs, omega (arith, count-in_text col (length xs)))

-- SQLite reads the clause, and the rows that it keeps are the rows that `allows` accepts. The
-- column's name holds no `?`, and the text has one placeholder for each argument.
pub admits-clause :
    (f : FormScope) (col form_id : Text)
    → count is_mark col ≡ 0
    → (admits col (clause f col) form_id ≡ some (allows f form_id))
      × (count is_mark (clause f col).0 ≡ length (clause f col).1)
unfolding allows
admits-clause f col form_id h = elim (Bool-cases f.all) [
  | inl e ↦ unfold admits clause in (ground arith, ground arith)
  | inr e ↦ rw e (clause_limited f.ids col form_id h)
]
