-- ===== src/Salesforce/Exchange/Posts.antt =====
-- The requests of the exchange, by their parts.
use duckdb_data.Pkce.Url.{percent_encode, fixed_oauth_callback_url}
use duckdb_data.Salesforce.Form.Percent.{form_encode-percent_encode}
use duckdb_data.Pkce.Token.{OauthTokenResponse}
use duckdb_data.Query.Types.{HttpRequest}
use duckdb_data.Registry.State.{AuthCompletionMaterial}
use duckdb_data.Salesforce.Types.{OauthExchangeOptions}
use duckdb_data.Salesforce.Exchange.{oauth_request, data360_request}
use duckdb_data.Base.{String, ◌≡◌, refl, false, List, [], ◌∷◌, ◌++◌, Bytes, codes}

-- A form of fields: name=value, percent-encoded and joined by &.
abbrev pub form_of : List (String × Bytes) → Bytes
form_of [] = []
form_of ((name, value) ∷ []) = codes name ++ (codes "=" ++ percent_encode value)
form_of ((name, value) ∷ field ∷ fields) =
    codes name ++ (codes "=" ++ (percent_encode value ++ (codes "&" ++ form_of (field ∷ fields))))

-- A POST of a form, which follows no redirect and carries no Authorization header.
abbrev pub IsPost : OauthExchangeOptions → Bytes → List (String × Bytes) → HttpRequest → Type 0
IsPost options url fields q =
    (q.method ≡ codes "POST")
    × (q.url ≡ url)
    × (q.body ≡ form_of fields)
    × (q.content_type ≡ codes "application/x-www-form-urlencoded")
    × (q.authorization ≡ [])
    × (q.follow_redirects ≡ false)
    × (q.timeout_ms ≡ options.request_timeout_ms)
    × (q.max_response_bytes ≡ options.max_response_bytes)

-- The request with the authorization code.
abbrev pub IsCodeRequest :
    OauthExchangeOptions → Bytes → AuthCompletionMaterial → HttpRequest → Type 0
IsCodeRequest options origin material = IsPost options (origin ++ codes "/services/oauth2/token") (
    ("grant_type", codes "authorization_code")
    ∷ ("client_id", material.client_id)
    ∷ ("redirect_uri", codes "http://localhost:8910/oauth/callback")
    ∷ ("code", material.authorization_code)
    ∷ ("code_verifier", material.pkce_verifier)
    ∷ [])

-- The request with the token of an answer.
abbrev pub IsTokenRequest : OauthExchangeOptions → OauthTokenResponse → HttpRequest → Type 0
IsTokenRequest options answer =
    IsPost options (answer.instance_url ++ codes "/services/a360/token") (
      ("grant_type", codes "urn:salesforce:grant-type:external:cdp")
      ∷ ("subject_token", answer.access_token)
      ∷ ("subject_token_type", codes "urn:ietf:params:oauth:token-type:access_token")
      ∷ [])

pub oauth_request-IsCodeRequest :
    (options : OauthExchangeOptions) (origin : Bytes) (material : AuthCompletionMaterial)
    → IsCodeRequest options origin material
        (oauth_request options origin material.client_id material)
unfolding percent_encode
oauth_request-IsCodeRequest options origin material = (
  refl,
  refl,
  rw
      (
        form_encode-percent_encode material.client_id,
        form_encode-percent_encode fixed_oauth_callback_url,
        form_encode-percent_encode material.authorization_code,
        form_encode-percent_encode material.pkce_verifier,
      )
      refl,
  refl,
  refl,
  refl,
  refl,
  refl,
)

pub data360_request-IsTokenRequest :
    (options : OauthExchangeOptions) (answer : OauthTokenResponse)
    → IsTokenRequest options answer (data360_request options answer)
unfolding percent_encode
data360_request-IsTokenRequest options answer = (
  refl,
  refl,
  rw
      (
        form_encode-percent_encode (codes "urn:salesforce:grant-type:external:cdp"),
        form_encode-percent_encode answer.access_token,
        form_encode-percent_encode (codes "urn:ietf:params:oauth:token-type:access_token"),
      )
      refl,
  refl,
  refl,
  refl,
  refl,
  refl,
)
