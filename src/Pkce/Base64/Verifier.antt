-- ===== src/Pkce/Base64/Verifier.antt =====
-- The size and the alphabet of what `base64url` and the generators give.
use duckdb_data.Pkce.Base64.{
  base64url, RandomSource, verifier_bytes, state_bytes, generate_pkce_verifier,
  generate_oauth_state, is_base64url_char, is_base64url_value,
}
use duckdb_data.Pkce.Challenge.{create_s256_challenge}
use duckdb_data.Pkce.Base64.Reference.{character, grouped, base64url-grouped}
use duckdb_data.Base.{
  ℕ, suc, ◌+◌, ◌*◌, ◌/◌, ◌%◌, ◌≤◌, ◌<◌, ◌≡◌, refl, ap, ◌∙◌, true, Option, some, [], ◌∷◌, arith,
  length, Bytes, IsBytes, all_of, ok,
}

character-is_base64url_char : (i : ℕ) → i < 64 → is_base64url_char (character i) ≡ true
character-is_base64url_char i h = ground (arith, h)

pub length-grouped : (input : Bytes) → length (grouped input) ≡ (4 * length input + 2) / 3
length-grouped [] = omega arith
length-grouped (a ∷ []) = omega arith
length-grouped (a ∷ b ∷ []) = omega arith
length-grouped (a ∷ b ∷ c ∷ rest) = omega (arith, length-grouped rest)

all_of-grouped : (input : Bytes) → IsBytes input → all_of is_base64url_char (grouped input) ≡ true
unfolding all_of
all_of-grouped [] h = refl
all_of-grouped (a ∷ []) h = rw (
  character-is_base64url_char (a / 4) (omega arith),
  character-is_base64url_char (a % 4 * 16) (omega arith),
)
all_of-grouped (a ∷ b ∷ []) h = rw (
  character-is_base64url_char (a / 4) (omega arith),
  character-is_base64url_char (a % 4 * 16 + b / 16) (omega arith),
  character-is_base64url_char (b % 16 * 4) (omega arith),
)
all_of-grouped (a ∷ b ∷ c ∷ rest) h =
    rw
      (
        character-is_base64url_char (a / 4) (omega arith),
        character-is_base64url_char (a % 4 * 16 + b / 16) (omega arith),
        character-is_base64url_char (b % 16 * 4 + c / 64) (omega arith),
        character-is_base64url_char (c % 64) (omega arith),
      )
      (all_of-grouped rest h.1.1.1)

pub base64url-is_base64url_value :
    (input : Bytes) (lo hi : ℕ)
    → IsBytes input
    → lo ≤ (4 * length input + 2) / 3
    → (4 * length input + 2) / 3 ≤ hi
    → is_base64url_value (base64url input) lo hi ≡ true
unfolding is_base64url_value
base64url-is_base64url_value input lo hi h p q =
    rw (base64url-grouped input h) (ground (arith, length-grouped input, all_of-grouped input h))

-- The pieces that a login starts from fit together: where the random source fills its buffers and
-- the digest gives 32 bytes, the verifier has 43 characters and is one that CreateS256Challenge
-- takes, the challenge that it gives has 43 characters, the state has 22, and both are values that
-- the authorization URL takes.
pub generated-is_base64url_value :
    (random : RandomSource) (sha256 : Bytes → Option Bytes) (call : ℕ) (long short digest : Bytes)
    → random call verifier_bytes ≡ some long
    → random (suc call) state_bytes ≡ some short
    → sha256 (base64url long) ≡ some digest
    → IsBytes long × IsBytes short × IsBytes digest
    → (length long ≡ verifier_bytes) × (length short ≡ state_bytes) × (length digest ≡ 32)
    → (verifier challenge state : Bytes) × (generate_pkce_verifier random call ≡ some verifier)
      × (create_s256_challenge sha256 verifier ≡ ok challenge)
      × (generate_oauth_state random (suc call) ≡ some state)
      × (length verifier ≡ 43)
      × (length challenge ≡ 43)
      × (length state ≡ 22)
      × (is_base64url_value challenge 1 128 ≡ true)
      × (is_base64url_value state 1 128 ≡ true)
unfolding generate_pkce_verifier generate_oauth_state create_s256_challenge
generated-is_base64url_value random sha256 call long short digest r r' d (b, b', b'') (l, l', l'') =
    let taken = base64url-is_base64url_value long 43 128 b (omega (arith, l)) (omega (arith, l)) in
    (
      base64url long,
      base64url digest,
      base64url short,
      rw r refl,
      rw (taken, d) refl,
      rw r' refl,
      ap length (base64url-grouped long b) ∙ length-grouped long ∙ omega (arith, l),
      ap length (base64url-grouped digest b'') ∙ length-grouped digest ∙ omega (arith, l''),
      ap length (base64url-grouped short b') ∙ length-grouped short ∙ omega (arith, l'),
      base64url-is_base64url_value digest 1 128 b'' (omega (arith, l'')) (omega (arith, l'')),
      base64url-is_base64url_value short 1 128 b' (omega (arith, l')) (omega (arith, l')),
    )
