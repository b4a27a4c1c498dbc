-- ===== src/Callback/Decode/RoundTrip.antt =====
-- src/oauth_pkce.cpp's PercentEncode against src/loopback_listener.cpp's PercentDecode.
use duckdb_data.Pkce.Url.{is_unreserved, hex, percent_encode_byte, percent_encode}
use duckdb_data.Callback.Types.{max_callback_value_bytes}
use duckdb_data.Callback.Decode.{hex_value, unescape, plain, decode_bytes, percent_decode}
use duckdb_data.Base.{
  ℕ, zero, suc, ◌+◌, ◌*◌, ◌/◌, ◌%◌, ◌≤◌, ◌<◌, ◌≡◌, refl, subst, inl, inr, Bool, true, false, not,
  ◌&&◌, Option, none, some, [], ◌∷◌, arith, ◌==◌, Bool-cases, length, Bytes, IsBytes, all_of,
  is_cntrl, ◌>>=◌, ok,
}

abbrev below : ℕ → (ℕ → Bool) → Bool
below zero p = true
below (suc n) p = p n && below n p

below_lem : (n : ℕ) (p : ℕ → Bool) (i : ℕ) → below n p ≡ true → i < n → p i ≡ true
below_lem zero p i h l = absurd (omega arith)
below_lem (suc n) p i h l = elim (Bool-cases (n == i)) [
  | inl e ↦ let same : n ≡ i = ground (arith, e) in subst (λ k. p k ≡ true) same (ground (arith, h))
  | inr d ↦ below_lem n p i (ground (arith, h)) (ground (arith, l, d))
]

abbrev is_digit_of : ℕ → Bool
is_digit_of i = elim (hex_value (hex i)) [ none ↦ false | some j ↦ j == i ]

hex_value-hex : (i : ℕ) → i < 16 → hex_value (hex i) ≡ some i
unfolding hex_value
hex_value-hex i h = read (hex_value (hex i)) (below_lem 16 is_digit_of i refl h)
  where
    read : (v : Option ℕ) → elim v [ none ↦ false | some j ↦ j == i ] ≡ true → v ≡ some i
    read none e = cc
    read (some j) e = ground (arith, e)

bare_step :
    (c : ℕ) (rest : Bytes)
    → is_unreserved c ≡ true
    → decode_bytes (c ∷ rest) ≡ (decode_bytes rest >>= λ r. ok (c ∷ r))
unfolding decode_bytes plain
bare_step c [] u = ground (arith, u)
bare_step c (h ∷ []) u = ground (arith, u)
bare_step c (h ∷ l ∷ rest) u = ground (arith, u)

escaped_step :
    (c : ℕ) (rest : Bytes)
    → c < 256
    → is_cntrl c ≡ false
    → decode_bytes (b'%' ∷ hex (c / 16) ∷ hex (c % 16) ∷ rest)
      ≡ (decode_bytes rest >>= λ r. ok (c ∷ r))
unfolding decode_bytes unescape
escaped_step c rest b h =
    let same : c / 16 * 16 + c % 16 ≡ c = omega arith in
    rw (hex_value-hex (c / 16) (omega arith), hex_value-hex (c % 16) (omega arith), same, h) refl

decode_nil : decode_bytes [] ≡ ok []
unfolding decode_bytes
decode_nil = refl

decode_encoded :
    (value : Bytes)
    → IsBytes value
    → all_of (λ c. not (is_cntrl c)) value ≡ true
    → decode_bytes (percent_encode value) ≡ ok value
unfolding percent_encode percent_encode_byte all_of
decode_encoded [] b h = decode_nil
decode_encoded (c ∷ value) b h =
    let rest = decode_encoded value b.1 (ground (arith, h)) in
    elim (Bool-cases (is_unreserved c)) [
      | inl u ↦ rw (u, bare_step c (percent_encode value) u, rest) refl
      | inr u ↦ rw (u, escaped_step c (percent_encode value) b.0 (ground (arith, h)), rest) refl
    ]

-- What PercentEncode makes of a value without control bytes, PercentDecode turns back into that
-- value, if it is no longer than a field may be.
pub percent_decode-percent_encode :
    (value : Bytes)
    → IsBytes value
    → all_of (λ c. not (is_cntrl c)) value ≡ true
    → length value ≤ max_callback_value_bytes
    → percent_decode (percent_encode value) ≡ ok value
unfolding percent_decode
percent_decode-percent_encode value b h l = rw (decode_encoded value b h) (ground (arith, l))
