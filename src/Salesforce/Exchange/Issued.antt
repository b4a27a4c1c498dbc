-- ===== src/Salesforce/Exchange/Issued.antt =====
-- What an exchange that succeeds gives.
use duckdb_data.Json.{Json}
use duckdb_data.Query.Checks.{is_trusted_tenant_url}
use duckdb_data.Registry.State.{AuthCompletionMaterial}
use duckdb_data.Pkce.Token.{OauthTokenResponse}
use duckdb_data.Faults.{AuthFault}
use duckdb_data.Salesforce.Types.{
  ℤ, pos, negsuc, Data360Capability, OauthExchangeOptions, Provider, Trace, settled,
}
use duckdb_data.Salesforce.Origin.{valid_dns_origin}
use duckdb_data.Salesforce.Origin.Trusted.{valid_dns_origin-is_trusted_tenant_url}
use duckdb_data.Salesforce.Exchange.{
  are_valid_exchange_options, send_sanitized, data360_request, check_status, stop_if_cancelled,
  tenant_suffix, validate_login, exchange_code, exchange_token, utc_expiry, issue, exchange_with,
  exchange,
}
use duckdb_data.Salesforce.Exchange.Chain.{chain-eq-ok}
use duckdb_data.Salesforce.Token.{max_expiry_seconds, Data360Response}
use duckdb_data.Salesforce.Token.Bounds.{IsTaken, parse_data360_response-IsTaken}
use duckdb_data.Base.{
  ℕ, suc, ◌+◌, ◌-◌, ◌*◌, ◌^◌, ◌≤◌, ◌<◌, ◌≡◌, refl, sym, subst, ◌⊎◌, inl, inr, true, false, arith,
  length, is_empty, Result, ok, err,
}

-- A capability for `seconds`, from a time read on.
abbrev pub IsIssued : Provider → ℕ → Data360Capability → Type 0
IsIssued provider seconds c =
    (t : ℕ) × (now : ℕ) × (provider.utc_now_micros (suc t) ≡ pos now)
    × (c.expires_at_monotonic_ms ≡ provider.now_ms t + seconds * 1000)
    × (c.expires_at_utc_micros ≡ pos (now + seconds * 1000000))
    × (c.expires_at_monotonic_ms < 2 ^ 64)
    × (now + seconds * 1000000 < 2 ^ 63)

utc_expiry_ok :
    (utc : ℤ) (seconds : ℕ) (z : ℤ)
    → 0 < seconds
    → utc_expiry utc seconds ≡ ok z
    → (now : ℕ) × (utc ≡ pos now)
      × (z ≡ pos (now + seconds * 1000000))
      × (now + seconds * 1000000 < 2 ^ 63)
unfolding utc_expiry
utc_expiry_ok (negsuc n) seconds z p h = cc
utc_expiry_ok (pos now) seconds z p h = (now, refl, ground (arith, h), ground (arith, h, p))

abbrev IsUtc : ℤ → ℕ → ℤ → Type 0
IsUtc utc seconds z =
    (now : ℕ) × (utc ≡ pos now)
    × (z ≡ pos (now + seconds * 1000000))
    × (now + seconds * 1000000 < 2 ^ 63)

IsUtc-cases :
    (utc : ℤ) (seconds : ℕ)
    → 0 < seconds
    → (x : Result AuthFault ℤ) → utc_expiry utc seconds ≡ x
    → ((e : AuthFault) × (x ≡ err e)) ⊎ ((z : ℤ) × (x ≡ ok z) × IsUtc utc seconds z)
IsUtc-cases utc seconds p (ok z) h = inr (z, refl, utc_expiry_ok utc seconds z p h)
IsUtc-cases utc seconds p (err e) h = inl (e, refl)

module _ {V : Type 0} (json : Json V) (provider : Provider) (options : OauthExchangeOptions) where
  module _ (parsed : Data360Response) (w : Trace) (c : Data360Capability) where
    abbrev seconds : ℕ
    seconds = parsed.ttl_seconds - options.expiry_skew_seconds

    abbrev utc : ℤ
    utc = provider.utc_now_micros (suc w.turn)

    issue-IsIssued :
        (issue json provider options parsed w).0 ≡ ok c
        → ((e : AuthFault) × (utc_expiry utc seconds ≡ err e))
          ⊎ ((z : ℤ) × (utc_expiry utc seconds ≡ ok z) × IsUtc utc seconds z)
        → IsIssued provider seconds c
    unfolding issue
    issue-IsIssued h (inl (e, q)) = ground (arith, h, q)
    issue-IsIssued h (inr (z, q, (now, a, b, d))) =
        (w.turn, now, a, ground (arith, h, q), ground (arith, h, q, b), ground (arith, h, q), d)

    issue_ok :
        (issue json provider options parsed w).0 ≡ ok c
        → ((e : AuthFault) × (utc_expiry utc seconds ≡ err e))
          ⊎ ((z : ℤ) × (utc_expiry utc seconds ≡ ok z) × IsUtc utc seconds z)
        → (valid_dns_origin c.tenant_url tenant_suffix ≡ true) × (c.access_token ≡ parsed.token)
    unfolding issue
    issue_ok h (inl (e, q)) = ground (arith, h, q)
    issue_ok h (inr (z, q, u)) = (ground (arith, h, q), ground (arith, h, q))

    issue_lasts :
        (issue json provider options parsed w).0 ≡ ok c
        → options.expiry_skew_seconds < parsed.ttl_seconds
    unfolding issue
    issue_lasts h = ground (arith, h)

  exchange_token-IsTaken :
      (salesforce : OauthTokenResponse) (w : Trace) (r : Data360Response)
      → options.default_ttl_seconds ≤ max_expiry_seconds
      → (exchange_token json provider options salesforce w).0 ≡ ok r
      → IsTaken r
  unfolding exchange_token
  exchange_token-IsTaken salesforce w r d h =
      let (response, a, h1) =
        chain-eq-ok
          (send_sanitized json provider options true (data360_request options salesforce) w) _ r
          h in
      let w1 =
        (send_sanitized json provider options true (data360_request options salesforce) w).1 in
      let (b, e, h2) = chain-eq-ok (settled (check_status response.status true) w1) _ r h1 in
      let (f, g, h3) = chain-eq-ok (stop_if_cancelled json provider options w1) _ r h2 in
      parse_data360_response-IsTaken json response.body options.default_ttl_seconds r d h3

  default-fits :
      are_valid_exchange_options options ≡ true → options.default_ttl_seconds ≤ max_expiry_seconds
  unfolding are_valid_exchange_options
  default-fits v = ground (arith, v)

  -- An exchange that succeeds, of a provider that the constructor made, gives a token of one to
  -- 16384 bytes for a tenant that the query client trusts. It lasts from one second to a year on
  -- from the times read, in milliseconds within 64 bits and in microseconds of UTC within the
  -- positive 63.
  pub exchange-IsIssued :
      (material : AuthCompletionMaterial) (w : Trace) (c : Data360Capability)
      → are_valid_exchange_options options ≡ true
      → (exchange json provider options material w).0 ≡ ok c
      → (is_trusted_tenant_url c.tenant_url ≡ true)
        × (is_empty c.access_token ≡ false)
        × (length c.access_token ≤ 16 * 1024)
        × ((seconds : ℕ) × (0 < seconds)
            × (seconds ≤ max_expiry_seconds)
            × IsIssued provider seconds c)
  unfolding exchange exchange_with
  exchange-IsIssued material w c v h =
      let (origin, a, h1) =
        chain-eq-ok
          (validate_login json provider options material.login_origin material.client_id w) _ c h in
      let w1 =
        (validate_login json provider options material.login_origin material.client_id w).1 in
      let (salesforce, b, h2) =
        chain-eq-ok (exchange_code json provider options origin material.client_id material w1) _ c
          h1 in
      let w2 = (exchange_code json provider options origin material.client_id material w1).1 in
      let (parsed, t, h3) =
        chain-eq-ok (exchange_token json provider options salesforce w2) _ c h2 in
      let w3 = (exchange_token json provider options salesforce w2).1 in
      let taken = exchange_token-IsTaken salesforce w2 parsed (default-fits v) t in
      let lasts = issue_lasts parsed w3 c h3 in
      let p : 0 < seconds parsed w3 c = ground (arith, lasts) in
      let more =
        IsUtc-cases (utc parsed w3 c) (seconds parsed w3 c) p
          (utc_expiry (utc parsed w3 c) (seconds parsed w3 c)) refl in
      let (trusted, token) = issue_ok parsed w3 c h3 more in
      (
        valid_dns_origin-is_trusted_tenant_url c.tenant_url trusted,
        subst (λ x. is_empty x ≡ false) (sym token) taken.0,
        subst (λ x. length x ≤ 16 * 1024) (sym token) taken.1,
        (seconds parsed w3 c, p, ground (arith, taken), issue-IsIssued parsed w3 c h3 more),
      )
