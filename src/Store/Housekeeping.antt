-- ===== src/Store/Housekeeping.antt =====
-- internal/store/oauth.go: what is removed once it cannot be used any more, and the bound on clients
-- that registered and were never approved. Deleting a client deletes its codes and grants with it
-- (ON DELETE CASCADE). The four statements are one step here; each runs whether or not another failed.
pub mod Unseen
pub mod Room
use dsforms.Common.{
  ℕ, ◌+◌, ◌-◌, ◌=ℕ◌, ltb, leb, if◌then◌else◌, length, drop, keep, any, ◌==◌, text_lt, Bool, ◌&&◌,
  ◌||◌, not, List, [], ◌∷◌,
}
use dsforms.Store.Grants.{Client, Tables}

-- In seconds.
abbrev pub unused_client_ttl : ℕ
unused_client_ttl = 3600

abbrev pub spent_code_retention : ℕ
spent_code_retention = 86400

unfoldable pub has_grant : Tables → Client → Bool
has_grant db k = any (λ g. g.client_id == k.id) db.grants

-- A DELETE of clients. A client that it deletes has no grant, so only codes go with it.
unfoldable pub delete_clients : (Client → Bool) → Tables → Tables
delete_clients gone db = record db {
  clients = keep (λ k. not (gone k)) db.clients;
  codes = keep (λ c. not (any (λ k. gone k && (k.id == c.client_id)) db.clients)) db.codes;
}

unfoldable pub stale_client : Tables → ℕ → Client → Bool
unfolding has_grant
stale_client db now k = ltb (k.created_at + unused_client_ttl) now && not (has_grant db k)

unfoldable pub clean_expired_oauth : Tables → ℕ → Tables
unfolding delete_clients stale_client
clean_expired_oauth db now =
    let swept = record db {
      codes = keep (λ c. ltb now (c.expires_at + spent_code_retention)) db.codes;
      refreshes = keep (λ r. ltb now r.expires_at) db.refreshes;
      tokens =
          keep
            (λ t. not (not (t.grant_id == []) && not (t.expires_at =ℕ 0) && leb t.expires_at now))
            db.tokens;
    } in
    delete_clients (stale_client swept now) swept

-- `ORDER BY created_at DESC, id DESC`
unfoldable pub newer : Client → Client → Bool
newer j k = ltb k.created_at j.created_at || ((j.created_at =ℕ k.created_at) && text_lt k.id j.id)

unfoldable pub insert_client : Client → List Client → List Client
unfolding newer text_lt
insert_client k [] = k ∷ []
insert_client k (j ∷ ks) =
    let rest = insert_client k ks in if newer j k then j ∷ rest else k ∷ j ∷ ks

unfoldable pub newest_first : List Client → List Client
unfolding insert_client
newest_first [] = []
newest_first (k ∷ ks) = insert_client k (newest_first ks)

unfoldable pub idle_clients : Tables → List Client
unfolding has_grant
idle_clients db = keep (λ k. not (has_grant db k)) db.clients

-- A negative OFFSET is 0.
unfoldable pub evicted : ℕ → Tables → List Client
evicted max db = drop (max - 1) (newest_first (idle_clients db))

unfoldable pub make_room_for_oauth_client : ℕ → Tables → Tables × ℕ
unfolding delete_clients
make_room_for_oauth_client max db =
    let gone = evicted max db in
    (delete_clients (λ k. any (λ j. j.id == k.id) gone) db, length gone)
