-- ===== src/Pkce/Base64.antt =====
-- src/oauth_pkce.cpp: Base64Url, Generate, the three generators and IsBase64UrlValue.
-- A RandomSource is the list of what its calls of Fill give: the k-th call fills the buffer with
-- `random k`, or throws where that is `none`.
pub mod Reference
pub mod Verifier
use duckdb_data.Base.{
  ℕ, zero, suc, ◌+◌, ◌-◌, ◌*◌, ◌/◌, ◌%◌, ◌^◌, Bool, false, ◌||◌, Option, none, some, [], ◌∷◌, ◌++◌,
  ltb, leb, ◌==◌, if◌then◌else◌, length, get_or, Bytes, codes, all_of, is_upper, is_lower, is_digit,
}

-- alphabet[i].
abbrev pub alphabet : Bytes
alphabet = codes "ABCDEFGHIJKLMNOPQRSTUVWXYZabcdefghijklmnopqrstuvwxyz0123456789-_"

pub letter : ℕ → ℕ
letter i = get_or alphabet i 0

-- `while (bits >= 6)`: six bits are written in a round, so `bits` rounds are enough.
pub drain : ℕ → ℕ → ℕ → Bytes → Bytes × ℕ
drain zero accumulator bits output = (output, bits)
drain (suc rounds) accumulator bits output =
    let sextet = accumulator / 2 ^ (bits - 6) % 64 in
    let rest = drain rounds accumulator (bits - 6) (output ++ letter sextet ∷ []) in
    if leb 6 bits then rest else (output, bits)

-- The `for` over the bytes, and the last bits behind it. The accumulator is a uint32_t; its low
-- eight bits are zero where `| input[i]` adds the byte.
pub encode : Bytes → ℕ → ℕ → Bytes → Bytes
encode [] accumulator bits output =
    if ltb 0 bits
    then output ++ letter (accumulator * 2 ^ (6 - bits) % 2 ^ 32 % 64) ∷ []
    else output
encode (byte ∷ input) accumulator bits output =
    let accumulator' = accumulator * 256 % 2 ^ 32 + byte in
    let (output', bits') = drain (bits + 8) accumulator' (bits + 8) output in
    encode input accumulator' bits' output'

unfoldable pub base64url : Bytes → Bytes
unfolding encode drain letter
base64url input = encode input 0 0 []

-- Fill, by the number of the call and the size of the buffer: the buffer's bytes, or `none` for its
-- OAuthError.
abbrev pub RandomSource : Type 0
RandomSource = ℕ → ℕ → Option Bytes

abbrev pub encoded : Option Bytes → Option Bytes
encoded none = none
encoded (some buffer) = some (base64url buffer)

unfoldable pub generate : RandomSource → ℕ → ℕ → Option Bytes
unfolding base64url
generate random call bytes = encoded (random call bytes)

-- The number of bytes that each generator asks for.
abbrev pub verifier_bytes : ℕ
verifier_bytes = 32

abbrev pub state_bytes : ℕ
state_bytes = 16

unfoldable pub generate_pkce_verifier : RandomSource → ℕ → Option Bytes
unfolding generate
generate_pkce_verifier random call = generate random call verifier_bytes

unfoldable pub generate_oauth_state : RandomSource → ℕ → Option Bytes
unfolding generate
generate_oauth_state random call = generate random call state_bytes

unfoldable pub generate_opaque_id : RandomSource → ℕ → Option Bytes
unfolding generate
generate_opaque_id random call = generate random call state_bytes

abbrev pub is_base64url_char : ℕ → Bool
is_base64url_char c = is_upper c || is_lower c || is_digit c || c == b'-' || c == b'_'

unfoldable pub is_base64url_value : Bytes → ℕ → ℕ → Bool
is_base64url_value value minimum maximum =
    if ltb (length value) minimum || ltb maximum (length value)
    then false
    else all_of is_base64url_char value
