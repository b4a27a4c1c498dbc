-- ===== src/Salesforce/Exchange.antt =====
-- src/salesforce_oauth_provider.cpp: the constructor's test, CheckStatus, SendSanitized and Exchange.
pub mod Chain
pub mod Posts
pub mod Answers
pub mod Requests
pub mod Issued
use duckdb_data.Json.{Json}
use duckdb_data.Faults.{
  AuthFault, invalid_login_origin, invalid_client_id, network_unavailable, tls_failure,
  token_exchange_failed, data360_exchange_failed, org_policy_denied,
}
use duckdb_data.Pkce.Origin.{https, validate_salesforce_login_origin}
use duckdb_data.Pkce.Url.{fixed_oauth_callback_url}
use duckdb_data.Pkce.Token.{OauthTokenResponse, parse_oauth_token_response}
use duckdb_data.Query.Types.{HttpRequest, HttpResponse}
use duckdb_data.Registry.State.{AuthCompletionMaterial}
use duckdb_data.Salesforce.Types.{
  ℤ, pos, negsuc, Data360Capability, OauthExchangeOptions, Sent, answered, throws_fault,
  throws_exception, throws_otherwise, Provider, Trace, Call, ◌>>=◌, ◌>>◌, settled, throw_when,
}
use duckdb_data.Salesforce.Form.{form_encode}
use duckdb_data.Salesforce.Origin.{valid_dns_origin}
use duckdb_data.Salesforce.Token.{max_expiry_seconds, Data360Response, parse_data360_response}
use duckdb_data.Base.{
  ℕ, suc, ◌+◌, ◌-◌, ◌*◌, ◌/◌, ◌^◌, Bool, true, false, not, ◌&&◌, ◌||◌, [], ◌∷◌, ◌++◌, ltb, leb,
  ◌==◌, if◌then◌else◌, length, Bytes, codes, bytes_eq, is_empty, starts_with, all_of, is_cntrl,
  Result, ok, err,
}

unfoldable pub are_valid_exchange_options : OauthExchangeOptions → Bool
are_valid_exchange_options o = not (
    o.request_timeout_ms == 0
    || o.max_response_bytes == 0
    || ltb (64 * 1024) o.max_response_bytes
    || o.default_ttl_seconds == 0
    || ltb max_expiry_seconds o.default_ttl_seconds)

-- The fault of the exchange that has failed: the second one where `data360_exchange` holds.
abbrev pub exchange_fault : Bool → AuthFault
exchange_fault data360_exchange =
    if data360_exchange then data360_exchange_failed else token_exchange_failed

unfoldable pub check_status : ℕ → Bool → Result AuthFault (Unit {0})
check_status status data360_exchange =
    if leb 200 status && ltb status 300
    then ok tt
    else if data360_exchange && status == 403
    then err org_policy_denied
    else err (exchange_fault data360_exchange)

unfoldable pub sanitize : Bool → Sent → Result AuthFault HttpResponse
sanitize data360_exchange (answered response) = ok response
sanitize data360_exchange (throws_fault fault) = err fault
sanitize data360_exchange (throws_exception detail) =
    if bytes_eq detail (codes "D360-AUTH-008 NETWORK_UNAVAILABLE")
    then err network_unavailable
    else if bytes_eq detail (codes "D360-AUTH-009 TLS_FAILURE")
    then err tls_failure
    else err (exchange_fault data360_exchange)
sanitize data360_exchange throws_otherwise = err (exchange_fault data360_exchange)

-- An OAuthError, or another exception, that becomes a fault.
abbrev pub rethrow_as : {E A : Type 0} → AuthFault → Result E A → Result AuthFault A
rethrow_as fault (ok a) = ok a
rethrow_as fault (err e) = err fault

-- A request of the exchange; it has no Authorization header.
abbrev pub post : OauthExchangeOptions → Bytes → Bytes → HttpRequest
post options url body = record {
  method = codes "POST";
  url = url;
  authorization = [];
  content_type = codes "application/x-www-form-urlencoded";
  accept = codes "application/json";
  body = body;
  timeout_ms = options.request_timeout_ms;
  follow_redirects = false;
  max_response_bytes = options.max_response_bytes;
  cleanup_request = false;
}

abbrev pub oauth_form : Bytes → AuthCompletionMaterial → Bytes
oauth_form client_id material =
    codes "grant_type=authorization_code&client_id="
    ++ (form_encode client_id
        ++ (codes "&redirect_uri="
            ++ (form_encode fixed_oauth_callback_url
                ++ (codes "&code="
                    ++ (form_encode material.authorization_code
                        ++ (codes "&code_verifier=" ++ form_encode material.pkce_verifier))))))

abbrev pub oauth_request :
    OauthExchangeOptions → Bytes → Bytes → AuthCompletionMaterial → HttpRequest
oauth_request options origin client_id material =
    post options (origin ++ codes "/services/oauth2/token") (oauth_form client_id material)

abbrev pub data360_form : Bytes → Bytes
data360_form access_token =
    codes "grant_type="
    ++ (form_encode (codes "urn:salesforce:grant-type:external:cdp")
        ++ (codes "&subject_token="
            ++ (form_encode access_token
                ++ (codes "&subject_token_type="
                    ++ form_encode (codes "urn:ietf:params:oauth:token-type:access_token")))))

abbrev pub data360_request : OauthExchangeOptions → OauthTokenResponse → HttpRequest
data360_request options salesforce =
    post options (salesforce.instance_url ++ codes "/services/a360/token")
      (data360_form salesforce.access_token)

abbrev pub is_client_id : Bytes → Bool
is_client_id client_id =
    not (is_empty client_id || ltb 1024 (length client_id))
    && all_of (λ c. not (is_cntrl c)) client_id

-- The tenant's URL, with its scheme.
abbrev pub with_scheme : Bytes → Bytes
with_scheme tenant_url = if starts_with https tenant_url then tenant_url else https ++ tenant_url

abbrev pub tenant_suffix : Bytes
tenant_suffix = codes ".c360a.salesforce.com"

-- The lifetime in UTC: `now_utc + effective_seconds * 1000000`, where it fits an int64_t.
unfoldable pub utc_expiry : ℤ → ℕ → Result AuthFault ℤ
utc_expiry (negsuc n) effective_seconds = err data360_exchange_failed
utc_expiry (pos now_utc) effective_seconds =
    if ltb ((2 ^ 63 - 1 - now_utc) / 1000000) effective_seconds
    then err data360_exchange_failed
    else ok (pos (now_utc + effective_seconds * 1000000))

module _ {V : Type 0} (json : Json V) (provider : Provider) (options : OauthExchangeOptions) where
  abbrev pub stop_if_cancelled : Call (Unit {0})
  stop_if_cancelled w = (
    if provider.is_cancelled w.turn then err data360_exchange_failed else ok tt,
    record w { turn = suc w.turn },
  )

  unfoldable pub send_sanitized : Bool → HttpRequest → Call HttpResponse
  unfolding sanitize
  send_sanitized data360_exchange request w = (
    sanitize data360_exchange (provider.send w.turn request),
    record w { turn = suc w.turn; sent = request ∷ w.sent },
  )

  abbrev pub ask_now : Call ℕ
  ask_now w = (ok (provider.now_ms w.turn), record w { turn = suc w.turn })

  abbrev pub ask_utc_now : Call ℤ
  ask_utc_now w = (ok (provider.utc_now_micros w.turn), record w { turn = suc w.turn })

  -- Up to the first request.
  unfoldable pub validate_login : Bytes → Bytes → Call Bytes
  validate_login login_origin client_id = do
    origin ←
        settled (rethrow_as invalid_login_origin (validate_salesforce_login_origin login_origin))
    throw_when (not (is_client_id client_id)) invalid_client_id
    stop_if_cancelled
    settled (ok origin)

  -- The code for a Salesforce token, and the instance that gave it.
  unfoldable pub exchange_code : Bytes → Bytes → AuthCompletionMaterial → Call OauthTokenResponse
  unfolding send_sanitized check_status
  exchange_code origin client_id material = do
    response ← send_sanitized false (oauth_request options origin client_id material)
    settled (check_status response.status false)
    salesforce ←
        settled (rethrow_as token_exchange_failed (parse_oauth_token_response json response.body))
    throw_when (not (valid_dns_origin salesforce.instance_url (codes ".salesforce.com")))
        token_exchange_failed
    stop_if_cancelled
    settled (ok salesforce)

  -- The Salesforce token for a token of the tenant.
  unfoldable pub exchange_token : OauthTokenResponse → Call Data360Response
  unfolding send_sanitized check_status
  exchange_token salesforce = do
    response ← send_sanitized true (data360_request options salesforce)
    settled (check_status response.status true)
    stop_if_cancelled
    settled (parse_data360_response json response.body options.default_ttl_seconds)

  -- From the tenant's answer to the capability.
  unfoldable pub issue : Data360Response → Call Data360Capability
  unfolding utc_expiry
  issue parsed = do
    let tenant_url = with_scheme parsed.tenant_url
    throw_when
        (not (valid_dns_origin tenant_url tenant_suffix)
          || leb parsed.ttl_seconds options.expiry_skew_seconds)
        data360_exchange_failed
    let effective_seconds = parsed.ttl_seconds - options.expiry_skew_seconds
    now_ms ← ask_now
    throw_when
        (ltb ((2 ^ 64 - 1) / 1000) effective_seconds
          || ltb (2 ^ 64 - 1 - effective_seconds * 1000) now_ms)
        data360_exchange_failed
    now_utc ← ask_utc_now
    expires_at_utc_micros ← settled (utc_expiry now_utc effective_seconds)
    settled (
        ok (record {
          tenant_url = tenant_url;
          access_token = parsed.token;
          expires_at_monotonic_ms = now_ms + effective_seconds * 1000;
          expires_at_utc_micros = expires_at_utc_micros;
        }))

  unfoldable pub exchange_with : Bytes → Bytes → AuthCompletionMaterial → Call Data360Capability
  unfolding validate_login exchange_code exchange_token issue
  exchange_with login_origin client_id material = do
    origin ← validate_login login_origin client_id
    salesforce ← exchange_code origin client_id material
    parsed ← exchange_token salesforce
    issue parsed

  unfoldable pub exchange : AuthCompletionMaterial → Call Data360Capability
  unfolding exchange_with
  exchange material = exchange_with material.login_origin material.client_id material
