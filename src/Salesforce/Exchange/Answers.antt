-- ===== src/Salesforce/Exchange/Answers.antt =====
-- What the answer to the first request holds.
use duckdb_data.Json.{Json}
use duckdb_data.Faults.{AuthFault, token_exchange_failed}
use duckdb_data.Pkce.Error.{OauthError}
use duckdb_data.Pkce.Token.{OauthTokenResponse, parse_oauth_token_response}
use duckdb_data.Query.Types.{HttpRequest, HttpResponse}
use duckdb_data.Registry.State.{AuthCompletionMaterial}
use duckdb_data.Salesforce.Types.{
  OauthExchangeOptions, Provider, Sent, answered, throws_fault, throws_exception, throws_otherwise,
  Trace, settled, throw_when,
}
use duckdb_data.Salesforce.Origin.{valid_dns_origin}
use duckdb_data.Salesforce.Exchange.{
  sanitize, check_status, rethrow_as, stop_if_cancelled, oauth_request, send_sanitized,
  exchange_code,
}
use duckdb_data.Salesforce.Exchange.Chain.{chain-eq-ok}
use duckdb_data.Base.{
  ℕ, ◌≤◌, ◌<◌, ◌≡◌, refl, ap, subst, Bool, true, false, not, arith, drop, Bytes, codes, starts_with,
  ends_with, all_of, contains, ok-injective, Result, ok, err,
}

-- https, and a host below salesforce.com without a path, a port, a user, a query or a fragment.
abbrev pub IsSalesforceUrl : Bytes → Type 0
IsSalesforceUrl url =
    (starts_with (codes "https://") url ≡ true)
    × (ends_with (codes ".salesforce.com") (drop 8 url) ≡ true)
    × (all_of (λ c. not (contains (codes "/?#@:\\%") c)) (drop 8 url) ≡ true)

valid_dns_origin-IsSalesforceUrl :
    (url : Bytes)
    → (not (valid_dns_origin url (codes ".salesforce.com"))) ≡ false
    → IsSalesforceUrl url
unfolding valid_dns_origin
valid_dns_origin-IsSalesforceUrl url h = (ground (arith, h), ground (arith, h), ground (arith, h))

sanitize_ok :
    (b : Bool) (sent : Sent) (response : HttpResponse)
    → sanitize b sent ≡ ok response
    → sent ≡ answered response
unfolding sanitize
sanitize_ok b (answered r) response h = ap answered (ok-injective h)
sanitize_ok b (throws_fault fault) response h = cc
sanitize_ok b (throws_exception detail) response h = ground (arith, h)
sanitize_ok b throws_otherwise response h = cc

check_status_ok :
    (status : ℕ) {t : Unit {0}} → check_status status false ≡ ok t → (200 ≤ status) × (status < 300)
unfolding check_status
check_status_ok status h = (ground (arith, h), ground (arith, h))

rethrow_as_ok :
    (fault : AuthFault) (x : Result OauthError OauthTokenResponse) (answer : OauthTokenResponse)
    → rethrow_as fault x ≡ ok answer
    → x ≡ ok answer
rethrow_as_ok fault (ok a) answer h = ap ok (ok-injective h)
rethrow_as_ok fault (err e) answer h = cc

throw_when_ok :
    (b : Bool) (e : AuthFault) (w : Trace) {t : Unit {0}} → (throw_when b e w).0 ≡ ok t → b ≡ false
throw_when_ok true e w h = cc
throw_when_ok false e w h = refl

module _ {V : Type 0} (json : Json V) (provider : Provider) (options : OauthExchangeOptions) where
  -- What the transport answered to a request, at that turn: a response of success, read as a token.
  abbrev pub IsAnswer : ℕ → HttpRequest → OauthTokenResponse → Type 0
  IsAnswer turn q answer =
      (response : HttpResponse) × (provider.send turn q ≡ answered response)
      × (200 ≤ response.status)
      × (response.status < 300)
      × (parse_oauth_token_response json response.body ≡ ok answer)

  pub exchange_code_ok :
      (origin client_id : Bytes) (material : AuthCompletionMaterial)
      (salesforce : OauthTokenResponse) (w : Trace)
      → (exchange_code json provider options origin client_id material w).0 ≡ ok salesforce
      → IsAnswer w.turn (oauth_request options origin client_id material) salesforce
        × IsSalesforceUrl salesforce.instance_url
  unfolding exchange_code send_sanitized
  exchange_code_ok origin client_id material salesforce w h =
      let q = oauth_request options origin client_id material in
      let x = send_sanitized json provider options false q w in
      let (response, e, h1) = chain-eq-ok x _ salesforce h in
      let (t, c, h2) =
        chain-eq-ok (settled (check_status response.status false) x.1) _ salesforce h1 in
      let (answer, p, h3) =
        chain-eq-ok
          (settled
            (rethrow_as token_exchange_failed (parse_oauth_token_response json response.body)) x.1)
          _ salesforce h2 in
      let valid = valid_dns_origin answer.instance_url (codes ".salesforce.com") in
      let (u, g, h4) =
        chain-eq-ok (throw_when (not valid) token_exchange_failed x.1) _ salesforce h3 in
      let (k, n, h5) =
        chain-eq-ok
          (stop_if_cancelled json provider options
            (throw_when (not valid) token_exchange_failed x.1).1)
          _ salesforce h4 in
      subst (λ s. IsAnswer w.turn q s × IsSalesforceUrl s.instance_url) (ok-injective h5)
        (
          (
            response,
            sanitize_ok false (provider.send w.turn q) response e,
            (check_status_ok response.status c).0,
            (check_status_ok response.status c).1,
            rethrow_as_ok token_exchange_failed (parse_oauth_token_response json response.body)
                answer p,
          ),
          valid_dns_origin-IsSalesforceUrl answer.instance_url
              (throw_when_ok (not valid) token_exchange_failed x.1 g),
        )
