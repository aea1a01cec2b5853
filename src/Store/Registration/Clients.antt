-- ===== src/Store/Registration/Clients.antt =====
-- internal/store/oauth.go: a registered client is read back.
use dsforms.Common.{
  ℕ, if◌then◌else◌, any, first, All, Text, eq_refl, ◌==◌, join, ◌≡◌, refl, subst, Bool, true, false,
  none, some, List, [], ◌∷◌, ◌++◌, arith,
}
use dsforms.Common.Splits.{split-join, NoByte}
use dsforms.Store.FormScope.Laws.{IsClean}
use dsforms.Store.ScopeList.{join_scopes, split_scopes-join_scopes}
use dsforms.Store.Grants.{Client, Tables}
use dsforms.Store.Registration.{create_oauth_client, get_oauth_client}

first-new :
    {A : Type 0} (p : A → Bool) (xs : List A) (x : A)
    → any p xs ≡ false
    → p x ≡ true
    → first p (xs ++ x ∷ []) ≡ some x
first-new p [] x e n = rw n refl
first-new p (y ∷ ys) x e n = ground (arith, first-new p ys x)

client_allowed :
    {A : Type 0} (a : Bool) (x y : A)
    → (if a then none else some x) ≡ some y
    → (a ≡ false) × (x ≡ y)
client_allowed true x y e = ground arith
client_allowed false x y e = (refl, cc e)

-- A client that was just registered, with at least one address, is read back with its addresses and
-- its grant types, when no address holds a line break and the types are not empty and have no comma
-- and no space around them.
pub get_oauth_client-create_oauth_client :
    (id name uri : Text) (uris types : List Text) (now : ℕ) (db made : Tables)
    → create_oauth_client id name (uri ∷ uris) types now db ≡ some made
    → All (NoByte b'\n') (uri ∷ uris)
    → All IsClean types
    → (k : Client) × (get_oauth_client id made ≡ some (k, uri ∷ uris, types))
      × (k.id ≡ id)
      × (k.name ≡ name)
unfolding create_oauth_client get_oauth_client
get_oauth_client-create_oauth_client id name uri uris types now db made e h c =
    let row : Client = record {
      id = id;
      name = name;
      redirect_uris = join (b'\n' ∷ []) (uri ∷ uris);
      grant_types = join_scopes types;
      created_at = now;
    } in
    let (new, eq) = client_allowed _ _ made e in
    let found = first-new (λ k. k.id == id) db.clients row new (eq_refl id) in
    subst
      (λ m.
        (k : Client) × (get_oauth_client id m ≡ some (k, uri ∷ uris, types))
        × (k.id ≡ id)
        × (k.name ≡ name))
      eq
      (
        row,
        rw (found, split-join b'\n' uri uris h, split_scopes-join_scopes types c) refl,
        refl,
        refl,
      )
