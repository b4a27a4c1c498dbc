-- ===== src/Salesforce/Origin.antt =====
-- src/salesforce_oauth_provider.cpp: ValidDnsOrigin.
pub mod Trusted
use duckdb_data.Pkce.Origin.{https}
use duckdb_data.Base.{
  ℕ, zero, suc, Bool, true, false, not, ◌&&◌, ◌||◌, none, some, [], ◌∷◌, ltb, leb, ◌==◌,
  if◌then◌else◌, length, drop, Bytes, codes, is_empty, starts_with, ends_with, all_of, contains,
  is_lower, is_digit, back, cut,
}

-- One label of the host.
unfoldable pub is_origin_label : Bytes → Bool
unfolding all_of
is_origin_label [] = false
is_origin_label (c ∷ label) =
    not (ltb 63 (length (c ∷ label)) || c == b'-' || back (c ∷ label) == b'-')
    && all_of (λ x. is_lower x || is_digit x || x == b'-') (c ∷ label)

-- The loop from `start` on: `rest` is what stands there. A round takes at least a dot away.
unfoldable pub origin_labels : ℕ → Bytes → Bool
unfolding cut is_origin_label
origin_labels zero rest = is_empty rest
origin_labels (suc rounds) [] = true
origin_labels (suc rounds) (c ∷ rest) = elim (cut (codes ".") (c ∷ rest)) [
  | none ↦ is_origin_label (c ∷ rest)
  | some (label, behind) ↦ let more = origin_labels rounds behind in is_origin_label label && more
]

unfoldable pub valid_dns_origin : Bytes → Bytes → Bool
unfolding starts_with contains all_of ends_with origin_labels
valid_dns_origin value suffix =
    let host = drop (length https) value in
    if not (starts_with https value) || ltb 2048 (length value)
    then false
    else if is_empty host
        || ltb 253 (length host)
        || not (all_of (λ c. not (contains (codes "/?#@:\\%") c)) host)
        || leb (length host) (length suffix)
        || not (ends_with suffix host)
    then false
    else origin_labels (length host) host
