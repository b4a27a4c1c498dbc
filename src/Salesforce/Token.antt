-- ===== src/Salesforce/Token.antt =====
-- src/salesforce_oauth_provider.cpp: JsonString and ParseData360Response.
pub mod Bounds
use duckdb_data.Json.{Json, are_distinct, key_name, string_of, is_missing_or, lifetime_or}
use duckdb_data.Faults.{AuthFault, data360_exchange_failed}
use duckdb_data.Base.{
  ℕ, ◌*◌, Bool, true, false, not, ◌&&◌, ◌||◌, none, some, List, [], ◌∷◌, map, ltb, leb, length,
  Bytes, codes, is_empty, ◌>>=◌, ◌>>◌, throw_if, or_throw, Result, ok,
}

abbrev pub max_expiry_seconds : ℕ
max_expiry_seconds = 86400 * 365

pub record Data360Response : Type 0 where
  pub token : Bytes
  pub tenant_url : Bytes
  pub ttl_seconds : ℕ

module _ {V : Type 0} (json : Json V) where
  abbrev pub json_string : V → Bytes → ℕ → Result AuthFault Bytes
  json_string object name maximum =
      or_throw (string_of json maximum (json.get object name)) data360_exchange_failed

  -- Whether a key is a string of at most 128 bytes.
  abbrev pub is_short_key : V × V → Bool
  is_short_key (key, value) = elim (json.as_str key) [
    | none ↦ false
    | some name ↦ leb (length name) 128
  ]

  unfoldable pub are_short_keys : List (V × V) → Bool
  are_short_keys [] = true
  are_short_keys (m ∷ members) = let rest = are_short_keys members in is_short_key m && rest

  unfoldable pub read_data360_members : V → ℕ → Result AuthFault Data360Response
  read_data360_members root default_ttl_seconds = do
    token ← json_string root (codes "access_token") (16 * 1024)
    tenant_url ← json_string root (codes "instance_url") 2048
    throw_if (not (is_missing_or json (codes "Bearer") 16 (json.get root (codes "token_type"))))
        data360_exchange_failed
    ttl_seconds ←
        or_throw (lifetime_or json default_ttl_seconds (json.get root (codes "expires_in")))
          data360_exchange_failed
    ok (record { token = token; tenant_url = tenant_url; ttl_seconds = ttl_seconds })

  unfoldable pub parse_data360_response : Bytes → ℕ → Result AuthFault Data360Response
  unfolding are_distinct are_short_keys read_data360_members
  parse_data360_response body default_ttl_seconds = do
    throw_if (is_empty body || ltb (64 * 1024) (length body)) data360_exchange_failed
    root ← or_throw (json.read body) data360_exchange_failed
    throw_if (not (json.is_obj root)) data360_exchange_failed
    throw_if
        (not (are_short_keys (json.members root))
          || not (are_distinct [] (map (key_name json) (json.members root))))
        data360_exchange_failed
    read_data360_members root default_ttl_seconds
