-- ===== src/Pkce/Origin/Canonical.antt =====
-- src/oauth_pkce.cpp: what ValidateSalesforceLoginOrigin gives.
use duckdb_data.Pkce.Error.{invalid_login_origin}
use duckdb_data.Pkce.Origin.{
  refuses_host, https, strip_slash, valid_my_domain_host, validate_salesforce_login_origin,
}
use duckdb_data.Pkce.Origin.Labels.{IsMyDomain, valid_my_domain_host-IsMyDomain}
use duckdb_data.Base.{
  ◌≡◌, refl, sym, subst, ◌⊎◌, inl, inr, true, false, not, ◌||◌, [], ◌∷◌, ◌++◌, arith, ◌==◌,
  Bool-cases, length, drop, Bytes, codes, bytes_eq, is_empty, bytes_eq_iff, starts_with, all_of,
  contains, back, throw_if-eq-ok, ok-injective, ok,
}

-- What a host of an accepted origin is: one of the two login hosts or a My Domain host.
abbrev pub IsLoginHost : Bytes → Type 0
IsLoginHost host =
    (host ≡ codes "login.salesforce.com") ⊎ (host ≡ codes "test.salesforce.com") ⊎ IsMyDomain host

-- What the code tests of a host.
abbrev IsTaken : Bytes → Type 0
IsTaken host =
    (all_of (λ c. not (contains (codes "/@:?#\\") c)) host ≡ true)
    × (is_empty host ≡ false)
    × ((bytes_eq host (codes "login.salesforce.com")
          || bytes_eq host (codes "test.salesforce.com")
          || valid_my_domain_host host)
        ≡ true)

taken_IsLoginHost : (host : Bytes) → IsTaken host → IsLoginHost host
taken_IsLoginHost host (plain, named, h) =
    elim (Bool-cases (bytes_eq host (codes "login.salesforce.com"))) [
      | inl e ↦ inl ((bytes_eq_iff host (codes "login.salesforce.com")).0 e)
      | inr e ↦ elim (Bool-cases (bytes_eq host (codes "test.salesforce.com"))) [
        | inl f ↦ inr (inl ((bytes_eq_iff host (codes "test.salesforce.com")).0 f))
        | inr f ↦ inr (inr (valid_my_domain_host-IsMyDomain host (ground (arith, h, e, f))))
      ]
    ]

back-no_slash :
    (host : Bytes)
    → all_of (λ c. not (contains (codes "/@:?#\\") c)) host ≡ true
    → (back host == b'/') ≡ false
unfolding all_of contains
back-no_slash [] h = refl
back-no_slash (c ∷ []) h = ground (arith, h)
back-no_slash (c ∷ d ∷ host) h = back-no_slash (d ∷ host) (ground (arith, h))

strip_slash_kept : (host : Bytes) → IsTaken host → strip_slash host ≡ host
strip_slash_kept host h = ground (arith, back-no_slash host h.0)

validated :
    (origin o : Bytes)
    → validate_salesforce_login_origin origin ≡ ok o
    → (host : Bytes) × (o ≡ https ++ host) × IsTaken host
unfolding validate_salesforce_login_origin
validated origin o e =
    let (u, k) = throw_if-eq-ok (not (starts_with https origin)) invalid_login_origin _ e in
    let (v, m) =
      throw_if-eq-ok (refuses_host (strip_slash (drop (length https) origin))) invalid_login_origin
        _ k in
    (strip_slash (drop (length https) origin), sym (ok-injective m), ground (arith, v))

accepted :
    (host : Bytes)
    → IsTaken host
    → validate_salesforce_login_origin (https ++ host) ≡ ok (https ++ host)
unfolding validate_salesforce_login_origin starts_with
accepted host h = rw (strip_slash_kept host h) (ground (arith, h))

-- An origin that is accepted comes out as `https://` and a host, which is login.salesforce.com or
-- test.salesforce.com, or has at most 253 bytes and is one label or more below my.salesforce.com,
-- each of 1 to 63 small letters, digits and hyphens, with no hyphen at its ends; and it is canonical:
-- validated again, it comes out unchanged.
pub validate_origin_canonical :
    (origin o : Bytes)
    → validate_salesforce_login_origin origin ≡ ok o
    → ((host : Bytes) × (o ≡ codes "https://" ++ host) × IsLoginHost host)
      × (validate_salesforce_login_origin o ≡ ok o)
validate_origin_canonical origin o e =
    let (host, same, h) = validated origin o e in
    (
      (host, same, taken_IsLoginHost host h),
      subst (λ x. validate_salesforce_login_origin x ≡ ok x) (sym same) (accepted host h),
    )
