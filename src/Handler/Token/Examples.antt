-- ===== src/Handler/Token/Examples.antt =====
-- internal/handler/oauth.go: the token endpoint at work.
use dsforms.Common.{
  if◌then◌else◌, Text, bytes, ◌==◌, split, join, trim_space, mem, ◌≡◌, refl, ◌⊎◌, true, false, none,
  some, List, [], ◌∷◌,
}
use dsforms.Store.Grants.{Client, Tables, Fresh}
use dsforms.Store.Grants.{exchange_auth_code}
use dsforms.Oauth.Pkce.{verify_pkce}
use dsforms.Store.ScopeList.{split_scopes, join_scopes}
use dsforms.Store.FormScope.{trimmed}
use dsforms.Store.Registration.{get_oauth_client}
use dsforms.Handler.Token.{
  Hashes, TokenRequest, tokens, no_fault, token, presented_id, grant_authorization_code,
}
use dsforms.Handler.Token.Vouched.{token_vouched, IsCodeShown, IsRefreshShown, IsHanded}

abbrev plain : Hashes
plain = record { digest = λ t. t; sha256 = λ t. t; base64 = λ t. t }

abbrev proof : Text
proof = bytes "abcdefghijklmnopqrstuvwxyzabcdefghijklmnopq"

abbrev drawn : Fresh
drawn = record {
  grant_id = bytes "x";
  token_id = bytes "2";
  access = bytes "a";
  refresh = bytes "b";
}

abbrev approved : Tables
approved = record {
  clients =
      record {
        id = bytes "app";
        name = bytes "App";
        redirect_uris = bytes "https://app";
        grant_types = bytes "authorization_code,refresh_token";
        created_at = 0;
      }
      ∷ [];
  codes =
      record {
        code_hash = bytes "s";
        client_id = bytes "app";
        user_id = bytes "ann";
        redirect_uri = bytes "https://app";
        code_challenge = proof;
        resource = [];
        scopes = bytes "read";
        form_ids = [];
        expires_at = 70;
        used = false;
        grant_id = [];
      }
      ∷ [];
  grants = [];
  tokens = [];
  refreshes = [];
}

abbrev posted : Text → Text
posted field =
    if field == bytes "grant_type"
    then grant_authorization_code
    else if field == bytes "client_id"
    then bytes "app"
    else if field == bytes "code"
    then bytes "s"
    else if field == bytes "code_verifier"
    then proof
    else if field == bytes "redirect_uri"
    then bytes "https://app"
    else []

abbrev request : TokenRequest
request = record { parsed = true; basic = none; form = posted }

answered_with_tokens :
    (token plain no_fault 20 drawn request approved).1
    ≡ tokens (bytes "a") 3600 (bytes "read") (some (bytes "b"))
unfolding token ◌==◌ get_oauth_client exchange_auth_code verify_pkce join mem split_scopes trimmed
    split join_scopes trim_space
answered_with_tokens = refl

token_vouched_example :
    (k : Client) × (uris : List Text) × (types : List Text) × (get_oauth_client
        (presented_id request)
        approved
      ≡ some (k, uris, types))
    × (IsCodeShown plain 20 posted approved k ⊎ IsRefreshShown plain 20 posted approved k types)
    × IsHanded drawn types (bytes "a") (some (bytes "b"))
token_vouched_example =
    token_vouched plain no_fault 20 drawn request approved (bytes "a") (bytes "read") 3600
      (some (bytes "b")) answered_with_tokens
