-- ===== src/Salesforce/Token/Bounds.antt =====
-- src/salesforce_oauth_provider.cpp: the bounds of what ParseData360Response gives.
use duckdb_data.Json.{
  Json, key_name, string_of, within_bound, positive_up_to, is_missing_or, lifetime_or, are_distinct,
}
use duckdb_data.Faults.{AuthFault, data360_exchange_failed}
use duckdb_data.Salesforce.Token.{
  json_string, are_short_keys, Data360Response, read_data360_members, parse_data360_response,
  max_expiry_seconds,
}
use duckdb_data.Base.{
  ℕ, ◌*◌, ◌≤◌, ◌≡◌, subst, false, not, ◌||◌, Option, none, some, [], map, arith, ltb, length, Bytes,
  codes, is_empty, or_throw, >>=-eq-ok, throw_if-eq-ok, ok-injective, ok,
}

-- A response that was taken: its token and its lifetime are within their bounds.
abbrev pub IsTaken : Data360Response → Type 0
IsTaken r =
    (is_empty r.token ≡ false) × (length r.token ≤ 16 * 1024) × (r.ttl_seconds ≤ max_expiry_seconds)

string_of_ok :
    (maximum : ℕ) (v : Option Bytes) (e : AuthFault) (text : Bytes)
    → or_throw (within_bound maximum v) e ≡ ok text
    → (is_empty text ≡ false) × (length text ≤ maximum)
string_of_ok maximum none e text h = cc
string_of_ok maximum (some x) e text h =
    let same : x ≡ text = ground (arith, h) in
    subst (λ t. (is_empty t ≡ false) × (length t ≤ maximum)) same
      (ground (arith, h), ground (arith, h))

lifetime_ok :
    (maximum : ℕ) (v : Option ℕ) (e : AuthFault) (n : ℕ)
    → or_throw (positive_up_to maximum v) e ≡ ok n
    → n ≤ maximum
lifetime_ok maximum none e n h = cc
lifetime_ok maximum (some x) e n h = ground (arith, h)

module _ {V : Type 0} (json : Json V) where
  member_ok :
      (maximum : ℕ) (v : Option V) (text : Bytes)
      → or_throw (string_of json maximum v) data360_exchange_failed ≡ ok text
      → (is_empty text ≡ false) × (length text ≤ maximum)
  member_ok maximum none text h = cc
  member_ok maximum (some v) text h =
      string_of_ok maximum (json.as_str v) data360_exchange_failed text h

  lifetime_or_ok :
      (absent : ℕ) (v : Option V) (n : ℕ)
      → absent ≤ max_expiry_seconds
      → or_throw (lifetime_or json absent v) data360_exchange_failed ≡ ok n
      → n ≤ max_expiry_seconds
  lifetime_or_ok absent none n d h = ground (arith, d, h)
  lifetime_or_ok absent (some v) n d h =
      lifetime_ok max_expiry_seconds (json.as_uint v) data360_exchange_failed n h

  read_data360_members-IsTaken :
      (root : V) (default : ℕ) (r : Data360Response)
      → default ≤ max_expiry_seconds
      → read_data360_members json root default ≡ ok r
      → IsTaken r
  unfolding read_data360_members
  read_data360_members-IsTaken root default r d h =
      let fault = data360_exchange_failed in
      let (token, e, h1) =
        >>=-eq-ok (json_string json root (codes "access_token") (16 * 1024)) _ h in
      let (url, f, h2) = >>=-eq-ok (json_string json root (codes "instance_url") 2048) _ h1 in
      let (b, h3) =
        throw_if-eq-ok
          (not (is_missing_or json (codes "Bearer") 16 (json.get root (codes "token_type")))) fault
          _ h2 in
      let (ttl, g, h4) =
        >>=-eq-ok (or_throw (lifetime_or json default (json.get root (codes "expires_in"))) fault) _
          h3 in
      subst IsTaken (ok-injective h4) (
        (member_ok (16 * 1024) (json.get root (codes "access_token")) token e).0,
        (member_ok (16 * 1024) (json.get root (codes "access_token")) token e).1,
        lifetime_or_ok default (json.get root (codes "expires_in")) ttl d g,
      )

  pub parse_data360_response-IsTaken :
      (body : Bytes) (default : ℕ) (r : Data360Response)
      → default ≤ max_expiry_seconds
      → parse_data360_response json body default ≡ ok r
      → IsTaken r
  unfolding parse_data360_response
  parse_data360_response-IsTaken body default r d h =
      let fault = data360_exchange_failed in
      let (a, h1) = throw_if-eq-ok (is_empty body || ltb (64 * 1024) (length body)) fault _ h in
      let (root, e, h2) = >>=-eq-ok (or_throw (json.read body) fault) _ h1 in
      let (b, h3) = throw_if-eq-ok (not (json.is_obj root)) fault _ h2 in
      let (c, h4) =
        throw_if-eq-ok
          (not (are_short_keys json (json.members root))
            || not (are_distinct [] (map (key_name json) (json.members root))))
          fault _ h3 in
      read_data360_members-IsTaken root default r d h4
