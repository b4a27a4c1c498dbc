-- ===== src/Pkce/Url.antt =====
-- src/oauth_pkce.cpp: PercentEncode, FixedOAuthCallbackUrl and BuildSalesforceAuthorizationUrl.
use duckdb_data.Pkce.Error.{
  OauthError, invalid_client_identifier, invalid_public_parameter, invalid_callback_url,
}
use duckdb_data.Pkce.Base64.{is_base64url_value}
use duckdb_data.Pkce.Origin.{validate_salesforce_login_origin}
use duckdb_data.Base.{
  ℕ, ◌/◌, ◌%◌, Bool, not, ◌||◌, [], ◌∷◌, ◌++◌, ltb, ◌==◌, if◌then◌else◌, length, get_or, Bytes,
  codes, bytes_eq, is_empty, all_of, is_alnum, is_cntrl, ◌>>=◌, ◌>>◌, throw_if, Result, ok,
}

abbrev pub is_unreserved : ℕ → Bool
is_unreserved c = is_alnum c || c == b'-' || c == b'_' || c == b'.' || c == b'~'

abbrev pub hex : ℕ → ℕ
hex i = get_or (codes "0123456789ABCDEF") i 0

unfoldable pub percent_encode_byte : ℕ → Bytes
percent_encode_byte c = if is_unreserved c then c ∷ [] else b'%' ∷ hex (c / 16) ∷ hex (c % 16) ∷ []

unfoldable pub percent_encode : Bytes → Bytes
unfolding percent_encode_byte
percent_encode [] = []
percent_encode (c ∷ value) = percent_encode_byte c ++ percent_encode value

abbrev pub fixed_oauth_callback_url : Bytes
fixed_oauth_callback_url = codes "http://localhost:8910/oauth/callback"

-- What stands behind the origin.
unfoldable pub authorization_query : Bytes → Bytes → Bytes → Bytes → Bytes
authorization_query client_id code_challenge state redirect_uri =
    codes "response_type=code&client_id="
    ++ (percent_encode client_id
        ++ (codes "&redirect_uri="
            ++ (percent_encode redirect_uri
                ++ (codes "&scope=api%20cdp_query_api&code_challenge="
                    ++ (percent_encode code_challenge
                        ++ (codes "&code_challenge_method=S256&state=" ++ percent_encode state))))))

unfoldable pub build_salesforce_authorization_url :
    Bytes → Bytes → Bytes → Bytes → Bytes → Result OauthError Bytes
unfolding authorization_query percent_encode
build_salesforce_authorization_url login_origin client_id code_challenge state redirect_uri = do
  origin ← validate_salesforce_login_origin login_origin
  throw_if (is_empty client_id || ltb 1024 (length client_id)) invalid_client_identifier
  throw_if (not (all_of (λ c. not (is_cntrl c)) client_id)) invalid_client_identifier
  throw_if (not (is_base64url_value code_challenge 1 128) || not (is_base64url_value state 1 128))
      invalid_public_parameter
  throw_if (not (bytes_eq redirect_uri fixed_oauth_callback_url)) invalid_callback_url
  ok (
      origin
      ++ (codes "/services/oauth2/authorize?"
          ++ authorization_query client_id code_challenge state redirect_uri))
