-- ===== src/Salesforce/Examples.antt =====
-- The theorems on the exchange, applied.
use duckdb_data.Json.{Json}
use duckdb_data.Pkce.Origin.{validate_salesforce_login_origin}
use duckdb_data.Pkce.Token.{parse_oauth_token_response}
use duckdb_data.Pkce.Url.{percent_encode}
use duckdb_data.Query.Checks.{is_trusted_tenant_url}
use duckdb_data.Registry.State.{AuthCompletionMaterial}
use duckdb_data.Salesforce.Types.{
  pos, Data360Capability, OauthExchangeOptions, answered, Provider, Trace,
}
use duckdb_data.Salesforce.Form.{form_encode}
use duckdb_data.Salesforce.Form.Percent.{form_encode-percent_encode}
use duckdb_data.Salesforce.Origin.{valid_dns_origin}
use duckdb_data.Salesforce.Origin.Trusted.{valid_dns_origin-is_trusted_tenant_url}
use duckdb_data.Salesforce.Token.{max_expiry_seconds, parse_data360_response}
use duckdb_data.Salesforce.Exchange.{are_valid_exchange_options, exchange}
use duckdb_data.Salesforce.Exchange.Requests.{AreExchange, exchange_requests}
use duckdb_data.Salesforce.Exchange.Issued.{IsIssued, exchange-IsIssued}
use duckdb_data.Base.{
  ℕ, ◌*◌, ◌≤◌, ◌<◌, ◌≡◌, refl, true, false, Option, none, some, List, [], ◌∷◌, if◌then◌else◌,
  length, Bytes, codes, bytes_eq, is_empty, starts_with,
}

-- Two documents, by their first byte, and the values of their members.
data Value : Type 0 where
  text : Bytes → Value
  number : ℕ → Value
  login_answer tenant_answer : Value

abbrev value_members : Value → List (Value × Value)
value_members login_answer =
    (text (codes "access_token"), text (codes "sf"))
    ∷ (text (codes "instance_url"), text (codes "https://my.salesforce.com"))
    ∷ []
value_members tenant_answer =
    (text (codes "access_token"), text (codes "token"))
    ∷ (text (codes "instance_url"), text (codes "t.c360a.salesforce.com"))
    ∷ (text (codes "expires_in"), number 900)
    ∷ []
value_members _ = []

abbrev as_text : Value → Option Bytes
as_text (text t) = some t
as_text _ = none

abbrev as_number : Value → Option ℕ
as_number (number n) = some n
as_number _ = none

abbrev find_member : Bytes → List (Value × Value) → Option Value
find_member name [] = none
find_member name ((key, value) ∷ members) = elim (as_text key) [
  | none ↦ find_member name members
  | some t ↦ if bytes_eq t name then some value else find_member name members
]

abbrev reader : Json Value
reader = record {
  read = λ body. if starts_with (codes "L") body then some login_answer else some tenant_answer;
  is_obj = λ v. true;
  members = value_members;
  elements = λ v. none;
  get = λ v name. find_member name (value_members v);
  as_str = as_text;
  as_uint = as_number;
  as_bool = λ v. none;
  is_null = λ v. false;
}

abbrev salesforce : Provider
salesforce = record {
  is_cancelled = λ turn. false;
  now_ms = λ turn. 1000;
  utc_now_micros = λ turn. pos 5;
  send = λ turn q. answered (record {
    status = 200;
    body =
        if starts_with (codes "https://login.salesforce.com") q.url then codes "L" else codes "T";
  });
}

abbrev options : OauthExchangeOptions
options = record {
  request_timeout_ms = 30000;
  max_response_bytes = 64 * 1024;
  default_ttl_seconds = 900;
  expiry_skew_seconds = 30;
}

abbrev material : AuthCompletionMaterial
material = record {
  authorization_code = codes "code";
  pkce_verifier = codes "verifier";
  login_origin = codes "https://login.salesforce.com";
  client_id = codes "client";
  secret_name = codes "secret";
}

abbrev start : Trace
start = record { turn = 0; sent = [] }

abbrev capability : Data360Capability
capability = record {
  tenant_url = codes "https://t.c360a.salesforce.com";
  access_token = codes "token";
  expires_at_monotonic_ms = 871000;
  expires_at_utc_micros = pos 870000005;
}

exchange-IsIssued_example :
    (is_trusted_tenant_url capability.tenant_url ≡ true)
    × (is_empty capability.access_token ≡ false)
    × (length capability.access_token ≤ 16 * 1024)
    × ((seconds : ℕ) × (0 < seconds)
        × (seconds ≤ max_expiry_seconds)
        × IsIssued salesforce seconds capability)
unfolding exchange are_valid_exchange_options validate_salesforce_login_origin bytes_eq
    parse_oauth_token_response valid_dns_origin parse_data360_response
exchange-IsIssued_example =
    exchange-IsIssued reader salesforce options material start capability refl refl

exchange_requests_example :
    AreExchange reader salesforce options 0 material
      (exchange reader salesforce options material (record { turn = 0; sent = [] })).1.sent
exchange_requests_example = exchange_requests reader salesforce options material 0

valid_dns_origin-is_trusted_tenant_url_example :
    is_trusted_tenant_url (codes "https://t.c360a.salesforce.com") ≡ true
unfolding valid_dns_origin bytes_eq
valid_dns_origin-is_trusted_tenant_url_example =
    valid_dns_origin-is_trusted_tenant_url (codes "https://t.c360a.salesforce.com") refl

form_encode-percent_encode_example : form_encode (codes "a:b c") ≡ percent_encode (codes "a:b c")
form_encode-percent_encode_example = form_encode-percent_encode (codes "a:b c")
