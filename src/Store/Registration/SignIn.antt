-- ===== src/Store/Registration/SignIn.antt =====
-- internal/store/oauth.go: an approved request ends in tokens.
use dsforms.Common.{ℕ, any, Text, ◌==◌, ◌≡◌, true, false, some}
use dsforms.Store.Grants.{AuthCode, Tables, Fresh, issued, grant_of, Reply}
use dsforms.Store.Rotation.{find_grant}
use dsforms.Store.Registration.Handed.{IsWorking}

-- The drawn secrets and ids are not in the tables.
pub record IsFresh (digest : Text → Text) (fresh : Fresh) (db : Tables) : Type 0 where
  pub grants : any (λ g. g.id == fresh.grant_id) db.grants ≡ false
  pub ids : any (λ t. t.id == fresh.token_id) db.tokens ≡ false
  pub tokens : any (λ t. t.token_hash == digest fresh.access) db.tokens ≡ false
  pub refreshes : any (λ r. r.token_hash == digest fresh.refresh) db.refreshes ≡ false

-- The tables with the new grant, before its tokens are made: they hold the client, the grant, and none of
-- the drawn secrets.
record IsReady (digest : Text → Text) (fresh : Fresh) (c : AuthCode) (db : Tables) : Type 0 where
  client : any (λ k. k.id == c.client_id) db.clients ≡ true
  ids : any (λ t. t.id == fresh.token_id) db.tokens ≡ false
  tokens : any (λ t. t.token_hash == digest fresh.access) db.tokens ≡ false
  refreshes : any (λ r. r.token_hash == digest fresh.refresh) db.refreshes ≡ false
  grant : find_grant fresh.grant_id db.grants ≡ some (grant_of fresh.grant_id c)

-- What the exchange of a live, unused and accepted code does.
abbrev pub IsSignedIn : (Text → Text) → ℕ → Fresh → AuthCode → Tables × Reply → Type 0
IsSignedIn digest now fresh c out =
    (out.1 ≡ issued fresh.grant_id)
    × (find_grant fresh.grant_id out.0.grants ≡ some (grant_of fresh.grant_id c))
    × IsWorking digest now fresh (grant_of fresh.grant_id c) out.0
