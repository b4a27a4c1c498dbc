-- ===== src/Query/Checks.antt =====
-- src/query_api.cpp: the checks on URLs and identifiers, the JSON escape and SameMetadata.
use duckdb_data.Pkce.Origin.{https, strip_slash}
use duckdb_data.Query.Types.{ColumnMetadata}
use duckdb_data.Base.{
  ℕ, zero, suc, ◌+◌, ◌/◌, ◌%◌, Bool, true, false, not, ◌&&◌, ◌||◌, Option, none, some, List, [],
  ◌∷◌, ◌++◌, ltb, leb, ◌==◌, if◌then◌else◌, length, get_or, drop, Bytes, codes, bytes_eq, is_empty,
  starts_with, ends_with, all_of, contains, is_upper, is_digit, is_alnum, is_cntrl, back, pop_back,
  cut,
}

-- `while (!value.empty() && value.back() == '/')`: a round takes a byte off.
pub trim_rounds : ℕ → Bytes → Bytes
trim_rounds zero value = value
trim_rounds (suc rounds) value =
    let shorter = trim_rounds rounds (pop_back value) in
    if not (is_empty value) && back value == b'/' then shorter else value

unfoldable pub trim_trailing_slash : Bytes → Bytes
unfolding trim_rounds
trim_trailing_slash value = trim_rounds (length value) value

abbrev pub tenant_suffix : Bytes
tenant_suffix = codes ".c360a.salesforce.com"

-- One label of the host.
unfoldable pub is_tenant_label : Bytes → Bool
unfolding all_of
is_tenant_label [] = false
is_tenant_label (c ∷ label) =
    leb (length (c ∷ label)) 63
    && is_alnum c
    && is_alnum (back (c ∷ label))
    && all_of (λ x. is_alnum x || x == b'-') (c ∷ label)

-- The loop from `label_start` on: `rest` is what stands there. A round takes at least a dot away.
unfoldable pub tenant_labels : ℕ → Bytes → Bool
tenant_labels zero rest = is_empty rest
tenant_labels (suc rounds) [] = true
tenant_labels (suc rounds) (c ∷ rest) = elim (cut (codes ".") (c ∷ rest)) [
  | none ↦ is_tenant_label (c ∷ rest)
  | some (label, behind) ↦ let more = tenant_labels rounds behind in is_tenant_label label && more
]

unfoldable pub is_trusted_tenant_url : Bytes → Bool
unfolding starts_with contains all_of ends_with cut tenant_labels is_tenant_label
is_trusted_tenant_url value =
    let host = strip_slash (drop (length https) value) in
    if not (starts_with https value)
    then false
    else if is_empty host || not (all_of (λ c. not (contains (codes "/?#@:\\%") c)) host)
    then false
    else if not (all_of (λ c. not (ltb 0x7f c || is_cntrl c || is_upper c)) host)
    then false
    else if leb (length host) (length tenant_suffix) || not (ends_with tenant_suffix host)
    then false
    else tenant_labels (length host) host

unfoldable pub is_safe_query_id : Bytes → Bool
unfolding all_of
is_safe_query_id value =
    if is_empty value || ltb 128 (length value)
    then false
    else all_of (λ c. is_alnum c || c == b'-' || c == b'_') value

abbrev pub query_prefix : Bytes
query_prefix = codes "/api/v3/query/"

abbrev pub chunks_separator : Bytes
chunks_separator = codes "/chunks/"

abbrev pub is_found : Option (Bytes × Bytes) → Bool
is_found none = false
is_found (some place) = true

-- From `separator_at` on; the second search begins one byte behind the first hit.
abbrev pub is_safe_chunk_rest : Bytes → Option (Bytes × Bytes) → Bool
is_safe_chunk_rest rest none = false
is_safe_chunk_rest rest (some (id, chunk_id)) =
    if is_found (cut chunks_separator (drop (length id + 1) rest)) || not (is_safe_query_id id)
    then false
    else if is_empty chunk_id || ltb 20 (length chunk_id)
    then false
    else all_of is_digit chunk_id

unfoldable pub is_safe_chunk_path : Bytes → Bool
unfolding starts_with contains all_of cut is_safe_query_id
is_safe_chunk_path value =
    let rest = drop (length query_prefix) value in
    if not (starts_with query_prefix value)
      || ltb 256 (length value)
      || not (all_of (λ c. not (contains (codes "\\?#%") c)) value)
      || is_found (cut (codes "..") value)
    then false
    else is_safe_chunk_rest rest (cut chunks_separator rest)

unfoldable pub query_id_from_chunk_path : Bytes → Bytes
unfolding cut
query_id_from_chunk_path value =
    let rest = drop (length query_prefix) value in
    elim (cut chunks_separator rest) [ none ↦ rest | some (id, chunk_id) ↦ id ]

abbrev pub lower_hex : ℕ → ℕ
lower_hex i = get_or (codes "0123456789abcdef") i 0

unfoldable pub json_escape_byte : ℕ → Bytes
json_escape_byte c =
    if c == b'\\'
    then b'\\' ∷ b'\\' ∷ []
    else if c == b'"'
    then b'\\' ∷ b'"' ∷ []
    else if c == 8
    then b'\\' ∷ b'b' ∷ []
    else if c == 12
    then b'\\' ∷ b'f' ∷ []
    else if c == 10
    then b'\\' ∷ b'n' ∷ []
    else if c == 13
    then b'\\' ∷ b'r' ∷ []
    else if c == 9
    then b'\\' ∷ b't' ∷ []
    else if ltb c 0x20
    then b'\\' ∷ b'u' ∷ b'0' ∷ b'0' ∷ lower_hex (c / 16 % 16) ∷ lower_hex (c % 16) ∷ []
    else c ∷ []

unfoldable pub json_escape : Bytes → Bytes
unfolding json_escape_byte
json_escape [] = []
json_escape (c ∷ value) = json_escape_byte c ++ json_escape value

abbrev pub bool_eq : Bool → Bool → Bool
bool_eq true b = b
bool_eq false b = not b

unfoldable pub same_column : ColumnMetadata → ColumnMetadata → Bool
same_column a b =
    bytes_eq a.name b.name
    && bytes_eq a.column_type b.column_type
    && bool_eq a.nullable b.nullable
    && bool_eq a.has_precision b.has_precision
    && bool_eq a.has_scale b.has_scale
    && a.precision == b.precision
    && a.scale == b.scale

unfoldable pub same_metadata : List ColumnMetadata → List ColumnMetadata → Bool
unfolding same_column
same_metadata [] [] = true
same_metadata (a ∷ left) (b ∷ right) = same_column a b && same_metadata left right
same_metadata _ _ = false
