-- ===== src/Store/Examples.antt =====
-- internal/store: the token tables at work.
use dsforms.Common.{
  ◌≤◌, length, keep, Text, bytes, ◌==◌, split, join, trim_space, ◌≡◌, refl, false, none, some, List,
  [], ◌∷◌, ◌++◌, arith,
}
use dsforms.Store.Grants.{
  OauthGrant, ApiToken, RefreshToken, Client, Tables, Fresh, issued, not_found, refresh_reused,
  committed, mint_tokens,
}
use dsforms.Store.Grants.Replay.{IsRevoked}
use dsforms.Store.Rotation.{spend_refresh, find_refresh, find_grant, refresh_grant, presented}
use dsforms.Store.Rotation.Reuse.{refresh_grant-once, refresh_grant-IsConsented, IsConsented}
use dsforms.Store.Housekeeping.{
  clean_expired_oauth, has_grant, idle_clients, make_room_for_oauth_client,
}
use dsforms.Store.Housekeeping.Unseen.{clean_expired_oauth_unseen, is_recent, IsSwept}
use dsforms.Store.Housekeeping.Room.{make_room_for_oauth_client_bounded}
use dsforms.Store.ScopeList.{split_scopes, join_scopes}
use dsforms.Store.FormScope.{trimmed}
use dsforms.Store.Registration.{Consent, code_row, create_api_token}
use dsforms.Store.Registration.{create_oauth_client, get_oauth_client}
use dsforms.Store.Registration.Clients.{get_oauth_client-create_oauth_client}
use dsforms.Store.Tokens.{get_api_token}
use dsforms.Store.Tokens.Answers.{get_api_token-IsAnswer, IsAnswer}

abbrev app : Client
app = record {
  id = bytes "app";
  name = bytes "App";
  redirect_uris = bytes "https://app.example";
  grant_types = [];
  created_at = 0;
}

abbrev grant : OauthGrant
grant = record {
  id = bytes "g";
  client_id = bytes "app";
  user_id = bytes "ann";
  redirect_uri = bytes "https://app.example";
  scopes = bytes "read";
  form_ids = [];
  last_used_at = none;
}

abbrev first_refresh : RefreshToken
first_refresh = record {
  token_hash = bytes "r";
  grant_id = bytes "g";
  expires_at = 90;
  used = false;
}

abbrev by_hand : ApiToken
by_hand = record {
  id = bytes "1";
  token_hash = bytes "k";
  user_id = bytes "ann";
  scopes = bytes "read";
  form_ids = [];
  expires_at = 0;
  grant_id = [];
  last_used_at = none;
}

abbrev connected : Tables
connected = record {
  clients = app ∷ record app { id = bytes "idle" } ∷ [];
  codes = [];
  grants = grant ∷ [];
  tokens = by_hand ∷ [];
  refreshes = first_refresh ∷ [];
}

abbrev drawn : Fresh
drawn = record {
  grant_id = bytes "x";
  token_id = bytes "2";
  access = bytes "a";
  refresh = bytes "b";
}

abbrev rotated : Tables
rotated = (refresh_grant (λ t. t) connected 10 (bytes "r") (bytes "app") drawn).0

rotated_is_issued :
    refresh_grant (λ t. t) connected 10 (bytes "r") (bytes "app") drawn
    ≡ (rotated, issued (bytes "g"))
unfolding refresh_grant presented ◌==◌ find_refresh find_grant committed mint_tokens spend_refresh
rotated_is_issued = refl

refresh_grant-once_example :
    (first_refresh.used ≡ false)
    × ((refresh_grant (λ t. t) rotated 20 (bytes "r") (bytes "app") drawn).1 ≡ refresh_reused)
    × IsRevoked (bytes "g") (refresh_grant (λ t. t) rotated 20 (bytes "r") (bytes "app") drawn).0
    × (refresh_grant (λ t. t) rotated 20 (bytes "r") (bytes "other") drawn ≡ (rotated, not_found))
unfolding find_refresh ◌==◌
refresh_grant-once_example =
    refresh_grant-once (λ t. t) connected rotated 10 20 (bytes "r") (bytes "app") (bytes "other")
      (bytes "g") drawn drawn first_refresh rotated_is_issued refl (omega arith) refl refl

refresh_grant-IsConsented_example :
    (g : OauthGrant) × (t : ApiToken) × (find_grant (bytes "g") connected.grants ≡ some g)
    × (g.client_id ≡ bytes "app")
    × (rotated.tokens ≡ connected.tokens ++ t ∷ [])
    × IsConsented g t
    × (rotated.grants ≡ connected.grants)
refresh_grant-IsConsented_example =
    refresh_grant-IsConsented (λ t. t) connected rotated 10 (bytes "r") (bytes "app") (bytes "g")
      drawn rotated_is_issued

abbrev approved : Consent
approved = record {
  client_id = bytes "app";
  user_id = bytes "ann";
  redirect_uri = bytes "https://app.example";
  code_challenge = bytes "c";
  resource = [];
  scopes = bytes "read" ∷ [];
  form_ids = [];
}

abbrev waiting : Tables
waiting = record connected { codes = code_row (bytes "s") approved 10 ∷ [] }

clean_expired_oauth_unseen_example :
    (get_api_token (λ t. t) (clean_expired_oauth waiting 100) 200 (bytes "k")
      ≡ get_api_token (λ t. t) waiting 200 (bytes "k"))
    × (presented (clean_expired_oauth waiting 100) 200 (bytes "r")
        ≡ presented waiting 200 (bytes "r"))
    × ((clean_expired_oauth waiting 100).grants ≡ waiting.grants)
    × (keep (has_grant waiting) (clean_expired_oauth waiting 100).clients
        ≡ keep (has_grant waiting) waiting.clients)
    × (keep (λ t. t.grant_id == []) (clean_expired_oauth waiting 100).tokens
        ≡ keep (λ t. t.grant_id == []) waiting.tokens)
    × (keep (is_recent waiting 100) (clean_expired_oauth waiting 100).codes
        ≡ keep (is_recent waiting 100) waiting.codes)
    × IsSwept waiting (clean_expired_oauth waiting 100) 100
unfolding find_refresh
clean_expired_oauth_unseen_example =
    clean_expired_oauth_unseen (λ t. t) waiting 100 200 (bytes "k") (bytes "r") (omega arith)
      (refl, tt)

make_room_for_oauth_client_bounded_example :
    (length (idle_clients (make_room_for_oauth_client 1 connected).0) ≤ 0)
    × (keep (has_grant connected) (make_room_for_oauth_client 1 connected).0.clients
        ≡ keep (has_grant connected) connected.clients)
make_room_for_oauth_client_bounded_example = make_room_for_oauth_client_bounded 1 connected

get_api_token-IsAnswer_example :
    IsAnswer (λ t. t) connected 20 (bytes "k") (get_api_token (λ t. t) connected 20 (bytes "k"))
get_api_token-IsAnswer_example = get_api_token-IsAnswer (λ t. t) connected 20 (bytes "k")

abbrev handed : Tables
handed = record connected {
  tokens =
      by_hand ∷ record by_hand { id = bytes "3"; token_hash = bytes "n"; expires_at = 15 } ∷ [];
}

made_by_hand :
    create_api_token
      (λ t. t)
      (bytes "3")
      (bytes "n")
      (bytes "ann")
      (bytes " read" ∷ [])
      []
      5
      10
      connected
    ≡ some handed
unfolding create_api_token ◌==◌ split_scopes join_scopes join split trimmed trim_space
made_by_hand = refl

abbrev joined : Tables
joined = record connected {
  clients =
      app
      ∷ record app { id = bytes "idle" }
      ∷ record {
        id = bytes "new";
        name = bytes "New";
        redirect_uris = bytes "a" ++ b'\n' ∷ bytes "b";
        grant_types = bytes "code,refresh";
        created_at = 7;
      }
      ∷ [];
}

abbrev both_types : List Text
both_types = bytes "code" ∷ bytes "refresh" ∷ []

joined_is_made :
    create_oauth_client
      (bytes "new")
      (bytes "New")
      (bytes "a" ∷ bytes "b" ∷ [])
      both_types
      7
      connected
    ≡ some joined
unfolding create_oauth_client ◌==◌ split_scopes join_scopes join split trimmed trim_space
joined_is_made = refl

both_trimmed :
    (trim_space (bytes "code") ≡ bytes "code") × (trim_space (bytes "refresh") ≡ bytes "refresh")
unfolding trim_space
both_trimmed = (refl, refl)

get_oauth_client-create_oauth_client_example :
    (k : Client) × (get_oauth_client (bytes "new") joined
      ≡ some (k, bytes "a" ∷ bytes "b" ∷ [], both_types))
    × (k.id ≡ bytes "new")
    × (k.name ≡ bytes "New")
get_oauth_client-create_oauth_client_example =
    get_oauth_client-create_oauth_client (bytes "new") (bytes "New") (bytes "a") (bytes "b" ∷ [])
      both_types 7 connected joined joined_is_made ((refl, tt), ((refl, tt), tt))
      (
        ((refl, (refl, (refl, (refl, tt)))), both_trimmed.0, (λ e. cc e)),
        (
          ((refl, (refl, (refl, (refl, (refl, (refl, (refl, tt))))))), both_trimmed.1, (λ e. cc e)),
          tt,
        ),
      )
