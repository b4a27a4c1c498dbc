-- ===== src/Salesforce/Origin/Trusted.antt =====
-- An origin that the exchange takes from a tenant is one that the query client trusts.
use duckdb_data.Pkce.Origin.{https, strip_slash}
use duckdb_data.Query.Checks.{is_tenant_label, tenant_labels, is_trusted_tenant_url}
use duckdb_data.Salesforce.Origin.{is_origin_label, origin_labels, valid_dns_origin}
use duckdb_data.Base.{
  ℕ, zero, suc, ◌≡◌, refl, sym, subst, ◌⊎◌, inl, inr, Bool, true, false, not, ◌&&◌, ◌||◌, Option,
  none, some, [], ◌∷◌, ◌++◌, arith, ltb, ◌==◌, length, drop, Bytes, codes, starts_with, all_of,
  contains, is_upper, is_lower, is_digit, is_alnum, is_cntrl, back, cut,
}

all_of_mono :
    (p q : ℕ → Bool) (s : Bytes)
    → ((c : ℕ) → p c ≡ true → q c ≡ true)
    → all_of p s ≡ true
    → all_of q s ≡ true
unfolding all_of
all_of_mono p q [] k h = refl
all_of_mono p q (c ∷ s) k h = ground (arith, h, k c, all_of_mono p q s k)

all_of-back : (p : ℕ → Bool) (c : ℕ) (s : Bytes) → all_of p (c ∷ s) ≡ true → p (back (c ∷ s)) ≡ true
unfolding all_of
all_of-back p c [] h = ground (arith, h)
all_of-back p c (d ∷ s) h = all_of-back p d s (ground (arith, h))

abbrev is_origin_char : ℕ → Bool
is_origin_char c = is_lower c || is_digit c || c == b'-'

is_origin_char-alnum : (c : ℕ) → is_origin_char c ≡ true → (c == b'-') ≡ false → is_alnum c ≡ true
is_origin_char-alnum c h k = ground (arith, h, k)

is_origin_label-is_tenant_label :
    (label : Bytes) → is_origin_label label ≡ true → is_tenant_label label ≡ true
unfolding is_origin_label is_tenant_label
is_origin_label-is_tenant_label [] h = h
is_origin_label-is_tenant_label (c ∷ label) h =
    let chars : all_of is_origin_char (c ∷ label) ≡ true = ground (arith, h) in
    let first = is_origin_char-alnum c (ground (arith, chars)) (ground (arith, h)) in
    let last =
      is_origin_char-alnum (back (c ∷ label)) (all_of-back is_origin_char c label chars)
        (ground (arith, h)) in
    let most =
      all_of_mono is_origin_char (λ x. is_alnum x || x == b'-') (c ∷ label)
        (λ x p. ground (arith, p)) chars in
    ground (arith, h, first, last, most)

-- One round of the loop over the labels.
abbrev round : (Bytes → Bool) → (Bytes → Bool) → Bytes → Option (Bytes × Bytes) → Bool
round is_label labels host none = is_label host
round is_label labels host (some (label, behind)) =
    let more = labels behind in is_label label && more

round-tenant :
    (n : ℕ) (host : Bytes) (place : Option (Bytes × Bytes))
    → ((behind : Bytes) → origin_labels n behind ≡ true → tenant_labels n behind ≡ true)
    → round is_origin_label (origin_labels n) host place ≡ true
    → round is_tenant_label (tenant_labels n) host place ≡ true
round-tenant n host none k h = is_origin_label-is_tenant_label host h
round-tenant n host (some (label, behind)) k h =
    ground (arith, h, is_origin_label-is_tenant_label label, k behind)

origin_labels-tenant_labels :
    (n : ℕ) (host : Bytes) → origin_labels n host ≡ true → tenant_labels n host ≡ true
unfolding origin_labels tenant_labels
origin_labels-tenant_labels zero host h = h
origin_labels-tenant_labels (suc n) [] h = h
origin_labels-tenant_labels (suc n) (c ∷ host) h =
    round-tenant n (c ∷ host) (cut (codes ".") (c ∷ host)) (origin_labels-tenant_labels n) h

-- Where a dot is found, the parts around it are the text.
cut-dot :
    (s label behind : Bytes) → cut (codes ".") s ≡ some (label, behind) → s ≡ label ++ b'.' ∷ behind
unfolding cut starts_with
cut-dot [] label behind h = cc
cut-dot (c ∷ s) label behind h = ground (arith, h, later (cut (codes ".") s) (cut-dot s))
  where
    later :
        (r : Option (Bytes × Bytes))
        → ((a b : Bytes) → r ≡ some (a, b) → s ≡ a ++ b'.' ∷ b)
        → (r ≡ none) ⊎ ((a : Bytes) × (b : Bytes) × (r ≡ some (a, b)) × (s ≡ a ++ b'.' ∷ b))
    later none k = inl refl
    later (some (a, b)) k = inr (a, b, refl, k a b refl)

abbrev is_plain : ℕ → Bool
is_plain c = not (ltb 0x7f c || is_cntrl c || is_upper c)

all_of_append :
    (p : ℕ → Bool) (s t : Bytes) → all_of p s ≡ true → all_of p t ≡ true → all_of p (s ++ t) ≡ true
unfolding all_of
all_of_append p [] t h k = k
all_of_append p (c ∷ s) t h k = ground (arith, h, k, all_of_append p s t)

is_origin_label-is_plain :
    (label : Bytes) → is_origin_label label ≡ true → all_of is_plain label ≡ true
unfolding is_origin_label
is_origin_label-is_plain [] h = cc
is_origin_label-is_plain (c ∷ label) h =
    all_of_mono is_origin_char is_plain (c ∷ label) (λ x p. ground (arith, p)) (ground (arith, h))

round-is_plain :
    (n : ℕ) (host : Bytes) (place : Option (Bytes × Bytes))
    → cut (codes ".") host ≡ place
    → ((behind : Bytes) → origin_labels n behind ≡ true → all_of is_plain behind ≡ true)
    → round is_origin_label (origin_labels n) host place ≡ true
    → all_of is_plain host ≡ true
unfolding all_of
round-is_plain n host none e k h = is_origin_label-is_plain host h
round-is_plain n host (some (label, behind)) e k h =
    subst (λ s. all_of is_plain s ≡ true) (sym (cut-dot host label behind e))
      (all_of_append is_plain label (b'.' ∷ behind)
        (is_origin_label-is_plain label (ground (arith, h))) (ground (arith, h, k behind)))

origin_labels-is_plain :
    (n : ℕ) (host : Bytes) → origin_labels n host ≡ true → all_of is_plain host ≡ true
unfolding origin_labels all_of
origin_labels-is_plain zero [] h = refl
origin_labels-is_plain zero (c ∷ host) h = cc
origin_labels-is_plain (suc n) [] h = refl
origin_labels-is_plain (suc n) (c ∷ host) h =
    round-is_plain n (c ∷ host) (cut (codes ".") (c ∷ host)) refl (origin_labels-is_plain n) h

back-no_slash :
    (host : Bytes)
    → all_of (λ c. not (contains (codes "/?#@:\\%") c)) host ≡ true
    → strip_slash host ≡ host
unfolding all_of contains
back-no_slash [] h = refl
back-no_slash (c ∷ host) h =
    let last = all_of-back (λ x. not (contains (codes "/?#@:\\%") x)) c host h in
    ground (arith, last)

-- An origin below a tenant's suffix is a URL that the query client trusts, so that it takes the
-- tenant of every capability.
pub valid_dns_origin-is_trusted_tenant_url :
    (value : Bytes)
    → valid_dns_origin value (codes ".c360a.salesforce.com") ≡ true
    → is_trusted_tenant_url value ≡ true
unfolding valid_dns_origin is_trusted_tenant_url
valid_dns_origin-is_trusted_tenant_url value h =
    let host = drop (length https) value in
    let kept = back-no_slash host (ground (arith, h)) in
    let labels = origin_labels-tenant_labels (length host) host (ground (arith, h)) in
    let plain = origin_labels-is_plain (length host) host (ground (arith, h)) in
    rw kept (ground (arith, h, labels, plain))
