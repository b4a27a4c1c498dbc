-- ===== src/Pkce/Token.antt =====
-- src/oauth_pkce.cpp: ParseOAuthTokenResponse. That the token is wiped on a failure is not modelled.
use duckdb_data.Json.{Json, are_distinct, key_name, string_of, is_missing_or, lifetime_or}
use duckdb_data.Pkce.Error.{OauthError, invalid_token_response}
use duckdb_data.Base.{
  ℕ, ◌*◌, not, ◌||◌, Option, [], map, ltb, length, Bytes, codes, is_empty, ◌>>=◌, ◌>>◌, throw_if,
  or_throw, Result, ok,
}

pub record OauthTokenResponse : Type 0 where
  pub access_token : Bytes
  pub instance_url : Bytes
  pub expires_in_seconds : ℕ

module _ {V : Type 0} (json : Json V) where
  -- BoundedJsonString.
  abbrev pub bounded_json_string : Option V → ℕ → Result OauthError Bytes
  bounded_json_string value maximum = or_throw (string_of json maximum value) invalid_token_response

  -- The members of an object whose names are distinct.
  unfoldable pub read_token_members : V → Result OauthError OauthTokenResponse
  read_token_members root = do
    access_token ← bounded_json_string (json.get root (codes "access_token")) (16 * 1024)
    instance_url ← bounded_json_string (json.get root (codes "instance_url")) 2048
    throw_if (not (is_missing_or json (codes "Bearer") 16 (json.get root (codes "token_type"))))
        invalid_token_response
    expires_in ←
        or_throw (lifetime_or json 0 (json.get root (codes "expires_in"))) invalid_token_response
    ok (record {
      access_token = access_token;
      instance_url = instance_url;
      expires_in_seconds = expires_in;
    })

  unfoldable pub parse_oauth_token_response : Bytes → Result OauthError OauthTokenResponse
  unfolding are_distinct read_token_members
  parse_oauth_token_response text = do
    throw_if (is_empty text || ltb (64 * 1024) (length text)) invalid_token_response
    root ← or_throw (json.read text) invalid_token_response
    throw_if (not (json.is_obj root)) invalid_token_response
    throw_if (not (are_distinct [] (map (key_name json) (json.members root))))
        invalid_token_response
    read_token_members root
