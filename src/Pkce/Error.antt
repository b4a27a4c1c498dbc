-- ===== src/Pkce/Error.antt =====
-- The OAuthErrors of src/oauth_pkce.cpp, one constructor for each message.
pub data OauthError : Type 0 where
  sha256_unavailable entropy_unavailable invalid_token_response invalid_pkce_verifier : OauthError
  invalid_login_origin invalid_client_identifier invalid_public_parameter : OauthError
  invalid_callback_url : OauthError
