-- ===== src/Pkce/Examples.antt =====
-- The theorems on the pieces of the login URL, applied.
use duckdb_data.Pkce.Base64.{
  base64url, RandomSource, generate_pkce_verifier, generate_oauth_state, is_base64url_value,
}
use duckdb_data.Pkce.Base64.Reference.{grouped, base64url-grouped}
use duckdb_data.Pkce.Base64.Verifier.{generated-is_base64url_value}
use duckdb_data.Pkce.Challenge.{create_s256_challenge, constant_time_equals}
use duckdb_data.Pkce.Challenge.Compare.{constant_time_equals_iff}
use duckdb_data.Pkce.Origin.{validate_salesforce_login_origin}
use duckdb_data.Pkce.Origin.Canonical.{IsLoginHost, validate_origin_canonical}
use duckdb_data.Base.{
  ℕ, zero, suc, ◌≡◌, refl, ◌↔◌, true, Option, some, [], ◌∷◌, ◌++◌, arith, length, Bytes, IsBytes,
  codes, bytes_eq, ok,
}

base64url-grouped_example : base64url (255 ∷ 0 ∷ 7 ∷ 1 ∷ []) ≡ grouped (255 ∷ 0 ∷ 7 ∷ 1 ∷ [])
base64url-grouped_example =
    base64url-grouped (255 ∷ 0 ∷ 7 ∷ 1 ∷ [])
      (omega arith, (omega arith, (omega arith, (omega arith, tt))))

abbrev sevens : ℕ → Bytes
sevens zero = []
sevens (suc n) = 7 ∷ sevens n

sevens-IsBytes : (n : ℕ) → IsBytes (sevens n)
sevens-IsBytes zero = tt
sevens-IsBytes (suc n) = (omega arith, sevens-IsBytes n)

abbrev random : RandomSource
random call size = some (sevens size)

abbrev sha256 : Bytes → Option Bytes
sha256 input = some (sevens 32)

generated-is_base64url_value_example :
    (verifier challenge state : Bytes) × (generate_pkce_verifier random 0 ≡ some verifier)
    × (create_s256_challenge sha256 verifier ≡ ok challenge)
    × (generate_oauth_state random 1 ≡ some state)
    × (length verifier ≡ 43)
    × (length challenge ≡ 43)
    × (length state ≡ 22)
    × (is_base64url_value challenge 1 128 ≡ true)
    × (is_base64url_value state 1 128 ≡ true)
generated-is_base64url_value_example =
    generated-is_base64url_value random sha256 0 (sevens 32) (sevens 16) (sevens 32) refl refl refl
      (sevens-IsBytes 32, sevens-IsBytes 16, sevens-IsBytes 32) (refl, refl, refl)

constant_time_equals_iff_example :
    (constant_time_equals (codes "abc") (codes "abd") ≡ true) ↔ (codes "abc" ≡ codes "abd")
constant_time_equals_iff_example = constant_time_equals_iff (codes "abc") (codes "abd")

validate_origin_canonical_example :
    ((host : Bytes) × (codes "https://a-b.my.salesforce.com" ≡ codes "https://" ++ host)
      × IsLoginHost host)
    × (validate_salesforce_login_origin (codes "https://a-b.my.salesforce.com")
        ≡ ok (codes "https://a-b.my.salesforce.com"))
unfolding validate_salesforce_login_origin bytes_eq
validate_origin_canonical_example =
    validate_origin_canonical (codes "https://a-b.my.salesforce.com/")
      (codes "https://a-b.my.salesforce.com") refl
