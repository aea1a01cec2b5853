-- ===== src/Mcp/Scopes/Laws.antt =====
-- What a token holds after its scopes were read, and how the two readings agree.
use dsforms.Common.{
  ◌=ℕ◌, if◌then◌else◌, length, keep, all, keep-cong, Text, eq_refl, eq_iff, ◌==◌, split, trim_space,
  mem, ◌≡◌, refl, ap, ◌∙◌, ◌≢◌, ◌↔◌, Bool, true, false, ◌&&◌, ◌||◌, not, List, [], ◌∷◌, arith,
}
use dsforms.Mcp.Scopes.{
  scope_read, scope_write, scope_delete, all_scopes, valid, seen_valid, parse_scopes, has, key,
  accepted, unknown, nothing_named, sift, validate_scopes,
}

-- Some entry is `s` once trimmed.
unfoldable pub is_named : Text → List Text → Bool
is_named s [] = false
is_named s (r ∷ raw) = (s == trim_space r) || is_named s raw

mem-seen_valid : (s : Text) (raw : List Text) → mem s (seen_valid raw) ≡ (valid s && is_named s raw)
unfolding mem seen_valid is_named
mem-seen_valid s [] = ground arith
mem-seen_valid s (r ∷ raw) = ground (arith, mem-seen_valid s raw, eq_iff s (trim_space r))

mem-keep : (s : Text) (xs ys : List Text) → mem s (keep (λ x. mem x ys) xs) ≡ (mem s xs && mem s ys)
unfolding mem
mem-keep s [] ys = ground arith
mem-keep s (x ∷ xs) ys = ground (arith, mem-keep s xs ys, eq_iff s x)

mem-all_scopes : (s : Text) → mem s all_scopes ≡ valid s
unfolding mem valid
mem-all_scopes s = ground arith

-- A token holds exactly the known scopes that its stored row names, whatever else stands in the row.
pub has-parse_scopes :
    (raw : List Text) (want : Text)
    → has (parse_scopes raw) want ≡ (valid want && is_named want raw)
unfolding has parse_scopes
has-parse_scopes raw want =
    ground (
      arith,
      mem-keep want all_scopes (seen_valid raw),
      mem-all_scopes want,
      mem-seen_valid want raw,
    )

-- Rows that name the same scopes, in any order and as often as they like, are read as the same list,
-- so their keys are equal.
parse_scopes_cong :
    (raw raw' : List Text)
    → ((s : Text) → is_named s raw ≡ is_named s raw')
    → (parse_scopes raw ≡ parse_scopes raw') × (key (parse_scopes raw) ≡ key (parse_scopes raw'))
parse_scopes_cong raw raw' h = (same, ap key same)
  where
    seen : (s : Text) → mem s (seen_valid raw) ≡ mem s (seen_valid raw')
    seen s = cc (mem-seen_valid s raw, mem-seen_valid s raw', h s)

    same : parse_scopes raw ≡ parse_scopes raw'
    same = unfold parse_scopes in keep-cong _ _ all_scopes seen

-- The scopes that three answers pick.
pick : Bool → Bool → Bool → List Text
pick r w d =
    let ds = (if d then scope_delete ∷ [] else []) in
    let ws = (if w then scope_write ∷ ds else ds) in if r then scope_read ∷ ws else ws

parse_scopes-pick :
    (raw : List Text)
    → parse_scopes raw
      ≡ pick
          (mem scope_read (seen_valid raw))
          (mem scope_write (seen_valid raw))
          (mem scope_delete (seen_valid raw))
unfolding parse_scopes pick
parse_scopes-pick raw = refl

parse-key-pick : (r w d : Bool) → parse_scopes (split b',' (key (pick r w d))) ≡ pick r w d
unfolding parse_scopes pick key split trim_space ◌==◌
parse-key-pick true true true = refl
parse-key-pick true true false = refl
parse-key-pick true false true = refl
parse-key-pick true false false = refl
parse-key-pick false true true = refl
parse-key-pick false true false = refl
parse-key-pick false false true = refl
parse-key-pick false false false = refl

-- The key of a row, split at its commas, is read as the row was.
parse_scopes-key :
    (raw : List Text) → parse_scopes (split b',' (key (parse_scopes raw))) ≡ parse_scopes raw
parse_scopes-key raw = rw (parse_scopes-pick raw) (parse-key-pick _ _ _)

-- Blank, or a scope.
abbrev pub is_known : Text → Bool
is_known r = (trim_space r == []) || valid (trim_space r)

valid-blank : (t : Text) → (t == []) ≡ true → valid t ≡ false
unfolding valid ◌==◌
valid-blank [] h = refl
valid-blank (c ∷ t) h = ground arith

seen-sift : (raw : List Text) → (sift raw).1 ≡ seen_valid raw
unfolding sift seen_valid
seen-sift [] = refl
seen-sift (r ∷ raw) = ground (arith, seen-sift raw, valid-blank (trim_space r))

bad-sift : (raw : List Text) → (length (sift raw).0 =ℕ 0) ≡ all is_known raw
unfolding sift
bad-sift [] = refl
bad-sift (r ∷ raw) = ground (arith, bad-sift raw)

mem-ne-nil : (s : Text) (xs : List Text) → mem s xs ≡ true → (length xs =ℕ 0) ≡ false
unfolding mem
mem-ne-nil s [] h = ground arith
mem-ne-nil s (x ∷ xs) h = ground arith

valid-head : (x : Text) (xs raw : List Text) → seen_valid raw ≡ x ∷ xs → valid x ≡ true
unfolding seen_valid
valid-head x xs [] h = ground arith
valid-head x xs (r ∷ raw) h = ground (arith, valid-head x xs raw)

some_scope-from :
    (raw seen : List Text)
    → seen_valid raw ≡ seen
    → (length (keep (λ s. mem s seen) all_scopes) =ℕ 0) ≡ (length seen =ℕ 0)
some_scope-from raw [] h = unfold mem in refl
some_scope-from raw (x ∷ xs) h =
    mem-ne-nil x (keep (λ s. mem s (x ∷ xs)) all_scopes) (
      mem-keep x all_scopes (x ∷ xs)
      ∙ (unfold mem in ground (arith, mem-all_scopes x, valid-head x xs raw h, eq_refl x)))
    ∙ (ground arith)

some_scope : (raw : List Text) → (length (parse_scopes raw) =ℕ 0) ≡ (length (seen_valid raw) =ℕ 0)
some_scope raw = unfold parse_scopes in some_scope-from raw (seen_valid raw) refl

-- The strict reading, by the tolerant one.
validate_scopes-cases :
    (raw : List Text)
    → validate_scopes raw ≡ (
        if not (all is_known raw)
        then unknown (sift raw).0
        else if length (parse_scopes raw) =ℕ 0
        then nothing_named
        else accepted (parse_scopes raw))
validate_scopes-cases raw =
    unfold validate_scopes in
    rw (bad-sift raw, seen-sift raw, some_scope raw) (unfold parse_scopes in refl)

length-zero : (xs : List Text) → ((length xs =ℕ 0) ≡ true) ↔ (xs ≡ [])
length-zero [] = ground arith
length-zero (x ∷ xs) = ground arith

-- The strict reading accepts a list exactly if every entry is blank or a scope and some entry is a
-- scope, and then it returns what the tolerant reading returns.
validate_scopes_iff :
    (raw out : List Text)
    → (validate_scopes raw ≡ accepted out)
      ↔ ((all is_known raw ≡ true) × (parse_scopes raw ≢ []) × (out ≡ parse_scopes raw))
validate_scopes_iff raw out = rw (validate_scopes-cases raw) (
  λ h. ground (arith, length-zero (parse_scopes raw)),
  λ h. ground (arith, length-zero (parse_scopes raw)),
)
