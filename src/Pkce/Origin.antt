-- ===== src/Pkce/Origin.antt =====
-- src/oauth_pkce.cpp: IsDnsLabelChar, ValidMyDomainHost and ValidateSalesforceLoginOrigin.
pub mod Labels
pub mod Canonical
use duckdb_data.Pkce.Error.{OauthError, invalid_login_origin}
use duckdb_data.Base.{
  ℕ, ◌+◌, ◌-◌, Bool, true, false, not, ◌&&◌, ◌||◌, Option, none, some, [], ◌∷◌, ◌++◌, ltb, leb,
  ◌==◌, if◌then◌else◌, length, take, drop, Bytes, codes, bytes_eq, is_empty, starts_with, ends_with,
  all_of, contains, is_lower, is_digit, back, pop_back, ◌>>=◌, ◌>>◌, throw_if, Result, ok,
}

-- A `char` of 128 or more is negative in the source where `char` is signed, and in no range of the
-- test; as a number it is in none either.
abbrev pub is_dns_label_char : ℕ → Bool
is_dns_label_char value = is_lower value || is_digit value || value == b'-'

abbrev pub my_domain_suffix : Bytes
my_domain_suffix = codes ".my.salesforce.com"

-- What the loop over the prefix holds.
pub record Scan : Type 0 where
  pub label_start : Bool
  pub label_length : ℕ
  pub previous : ℕ

-- `none` is the `return false` inside the loop.
unfoldable pub scan : Scan → Bytes → Option Scan
scan s [] = some s
scan s (c ∷ rest) =
    let at_dot = scan (record { label_start = true; label_length = 0; previous = c }) rest in
    let in_label =
      scan (record { label_start = false; label_length = s.label_length + 1; previous = c }) rest in
    if c == b'.'
    then (if s.label_start || ltb 63 s.label_length || s.previous == b'-' then none else at_dot)
    else if not (is_dns_label_char c) || (s.label_start && c == b'-')
    then none
    else in_label

abbrev pub scan_start : Scan
scan_start = record { label_start = true; label_length = 0; previous = 0 }

-- The `return` behind the loop.
abbrev pub scan_end : Bytes → Option Scan → Bool
scan_end prefix none = false
scan_end prefix (some s) = not s.label_start && leb s.label_length 63 && not (back prefix == b'-')

unfoldable pub valid_my_domain_host : Bytes → Bool
unfolding scan ends_with
valid_my_domain_host host =
    let prefix = take (length host - length my_domain_suffix) host in
    if ltb 253 (length host)
      || leb (length host) (length my_domain_suffix)
      || not (ends_with my_domain_suffix host)
    then false
    else scan_end prefix (scan scan_start prefix)

abbrev pub https : Bytes
https = codes "https://"

abbrev pub strip_slash : Bytes → Bytes
strip_slash host = if not (is_empty host) && back host == b'/' then pop_back host else host

-- The test that ends in "invalid Salesforce login origin" for a host.
abbrev pub refuses_host : Bytes → Bool
refuses_host host =
    is_empty host
    || not (all_of (λ c. not (contains (codes "/@:?#\\") c)) host)
    || (not (bytes_eq host (codes "login.salesforce.com"))
        && not (bytes_eq host (codes "test.salesforce.com"))
        && not (valid_my_domain_host host))

unfoldable pub validate_salesforce_login_origin : Bytes → Result OauthError Bytes
unfolding valid_my_domain_host starts_with contains all_of
validate_salesforce_login_origin origin = do
  throw_if (not (starts_with https origin)) invalid_login_origin
  let host = strip_slash (drop (length https) origin)
  throw_if (refuses_host host) invalid_login_origin
  ok (https ++ host)
