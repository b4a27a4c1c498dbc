-- ===== src/Pkce/Challenge.antt =====
-- src/oauth_pkce.cpp: CreateS256Challenge and ConstantTimeEquals.
pub mod Compare
use Prim.Native.Nat.{bit_or, bit_xor}
use duckdb_data.Pkce.Base64.{base64url, is_base64url_value}
use duckdb_data.Pkce.Error.{OauthError, sha256_unavailable, invalid_pkce_verifier}
use duckdb_data.Base.{
  ℕ, zero, suc, Bool, not, Option, ltb, ◌==◌, if◌then◌else◌, length, get_or, drop, Bytes, ◌>>=◌,
  ◌>>◌, throw_if, or_throw, Result, ok,
}

-- `sha256` is mbed TLS's digest, `none` where one of its calls reports an error.
unfoldable pub create_s256_challenge : (Bytes → Option Bytes) → Bytes → Result OauthError Bytes
create_s256_challenge sha256 verifier = do
  throw_if (not (is_base64url_value verifier 43 128)) invalid_pkce_verifier
  digest ← or_throw (sha256 verifier) sha256_unavailable
  ok (base64url digest)

-- The loop from some index on, over what is left of both strings: `count` rounds, each with the
-- byte 0 for a string that has ended.
pub differences : ℕ → Bytes → Bytes → ℕ → ℕ
differences zero left right difference = difference
differences (suc count) left right difference =
    differences count (drop 1 left) (drop 1 right)
      (bit_or difference (bit_xor (get_or left 0 0) (get_or right 0 0)))

-- The longer size.
abbrev pub rounds : Bytes → Bytes → ℕ
rounds left right = if ltb (length right) (length left) then length left else length right

unfoldable pub constant_time_equals : Bytes → Bytes → Bool
unfolding differences
constant_time_equals left right =
    differences (rounds left right) left right (bit_xor (length left) (length right)) == 0
