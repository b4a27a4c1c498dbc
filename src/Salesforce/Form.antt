-- ===== src/Salesforce/Form.antt =====
-- src/salesforce_oauth_provider.cpp: FormEncode.
pub mod Percent
use duckdb_data.Base.{
  ℕ, ◌/◌, ◌%◌, Bool, ◌||◌, [], ◌∷◌, ◌==◌, if◌then◌else◌, get_or, Bytes, codes, is_upper, is_lower,
  is_digit,
}

abbrev pub is_form_safe : ℕ → Bool
is_form_safe c =
    is_upper c || is_lower c || is_digit c || c == b'-' || c == b'_' || c == b'.' || c == b'~'

abbrev pub upper_hex : ℕ → ℕ
upper_hex i = get_or (codes "0123456789ABCDEF") i 0

-- `>> 4U` and `& 0x0fU` of a byte.
unfoldable pub form_encode : Bytes → Bytes
form_encode [] = []
form_encode (c ∷ value) =
    let rest = form_encode value in
    if is_form_safe c then c ∷ rest else b'%' ∷ upper_hex (c / 16) ∷ upper_hex (c % 16) ∷ rest
