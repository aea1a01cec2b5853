-- ===== src/Store/ScopeList.antt =====
-- internal/store/apitokens.go: the columns that hold a list joined by commas.
use dsforms.Common.{
  All, Text, bytes, ◌==◌, split, join, trim_space, ◌≡◌, refl, ap, ◌∙◌, List, [], ◌∷◌,
}
use dsforms.Common.Splits.{split-join}
use dsforms.Store.FormScope.{trimmed}
use dsforms.Store.FormScope.Laws.{IsClean, trimmed-clean, clean-NoByte}

-- The loop that trims each part and drops the blank ones is the one of `OnlyForms`.
unfoldable pub split_scopes : Text → List Text
split_scopes s = trimmed (split b',' s)

unfoldable pub join_scopes : List Text → Text
unfolding split_scopes
join_scopes scopes = join (bytes ",") (split_scopes (join (bytes ",") scopes))

split_scopes-join : (xs : List Text) → All IsClean xs → split_scopes (join (bytes ",") xs) ≡ xs
unfolding split_scopes
split_scopes-join [] h = unfold join split trimmed trim_space ◌==◌ in refl
split_scopes-join (x ∷ xs) h =
    ap trimmed (split-join b',' x xs (clean-NoByte (x ∷ xs) h)) ∙ trimmed-clean (x ∷ xs) h

-- A list whose entries have no comma, no white space around them and are not empty is read back as it
-- was stored.
pub split_scopes-join_scopes :
    (xs : List Text) → All IsClean xs → split_scopes (join_scopes xs) ≡ xs
unfolding join_scopes
split_scopes-join_scopes xs h =
    ap (λ ys. split_scopes (join (bytes ",") ys)) (split_scopes-join xs h) ∙ split_scopes-join xs h
