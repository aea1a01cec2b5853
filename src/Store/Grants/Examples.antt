-- ===== src/Store/Grants/Examples.antt =====
-- internal/store/oauth.go: one code, shown twice.
use dsforms.Common.{bytes, ◌==◌, ◌≡◌, refl, true, false, [], ◌∷◌}
use dsforms.Store.Grants.{Tables, Fresh, code_reused, exchange_auth_code}
use dsforms.Store.Grants.Replay.{exchange_auth_code-once, IsRevoked}

abbrev tables : Tables
tables = record {
  clients =
      record {
        id = bytes "app";
        name = bytes "App";
        redirect_uris = bytes "https://app.example";
        grant_types = [];
        created_at = 0;
      }
      ∷ [];
  codes =
      record {
        code_hash = bytes "k";
        client_id = bytes "app";
        user_id = bytes "ann";
        redirect_uri = bytes "https://app.example";
        code_challenge = bytes "c";
        resource = bytes "r";
        scopes = bytes "read";
        form_ids = [];
        expires_at = 60;
        used = false;
        grant_id = [];
      }
      ∷ [];
  grants = [];
  tokens = [];
  refreshes = [];
}

abbrev drawn : Fresh
drawn = record {
  grant_id = bytes "g";
  token_id = bytes "t";
  access = bytes "a";
  refresh = bytes "b";
}

abbrev made : Tables
made = (exchange_auth_code (λ t. t) tables 10 (bytes "k") (λ c. true) drawn).0

exchange_auth_code-once_example :
    ((exchange_auth_code (λ t. t) made 20 (bytes "k") (λ c. true) drawn).1 ≡ code_reused)
    × IsRevoked (bytes "g") (exchange_auth_code (λ t. t) made 20 (bytes "k") (λ c. true) drawn).0
unfolding exchange_auth_code ◌==◌
exchange_auth_code-once_example =
    (exchange_auth_code-once (λ t. t) tables 10 20 (bytes "k") (λ c. true) (λ c. true) drawn drawn
        made).1
      (bytes "g") refl refl
