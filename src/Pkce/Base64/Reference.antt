-- ===== src/Pkce/Base64/Reference.antt =====
-- `base64url` against the grouping of RFC 4648, three bytes to four letters, with no padding.
use mathlib.Core.List.{append-nil, append_assoc}
use duckdb_data.Base.{
  ℕ, zero, suc, ◌+◌, ◌-◌, ◌*◌, ◌/◌, ◌%◌, ◌^◌, ◌<◌, ◌≡◌, refl, sym, ap, ◌∙◌, subst, inl, inr, Bool,
  true, ◌&&◌, [], ◌∷◌, ◌++◌, arith, ltb, ◌==◌, if◌then◌else◌, Bool-cases, Bytes, IsBytes,
}
use duckdb_data.Pkce.Base64.{letter, drain, encode, base64url}

-- The 64 letters of RFC 4648, table 2, by their ASCII codes: A to Z, a to z, 0 to 9, - and _.
abbrev pub character : ℕ → ℕ
character i =
    if ltb i 26
    then 65 + i
    else if ltb i 52
    then 97 + (i - 26)
    else if ltb i 62
    then 48 + (i - 52)
    else if i == 62
    then 45
    else 95

abbrev agree_below : ℕ → Bool
agree_below zero = true
agree_below (suc n) = letter n == character n && agree_below n

agree_below-letter : (n i : ℕ) → agree_below n ≡ true → i < n → letter i ≡ character i
agree_below-letter zero i h k = omega (arith, k)
agree_below-letter (suc n) i h k = elim (Bool-cases (i == n)) [
  | inl e ↦
      let same : i ≡ n = ground (arith, e) in
      subst (λ x. letter x ≡ character x) (sym same) (ground (arith, h))
  | inr e ↦ agree_below-letter n i (ground (arith, h)) (ground (arith, e, k))
]

-- The code's table has these letters.
letter-character : (i : ℕ) → i < 64 → letter i ≡ character i
unfolding letter
letter-character i h = agree_below-letter 64 i refl h

abbrev pub grouped : Bytes → Bytes
grouped [] = []
grouped (a ∷ []) = character (a / 4) ∷ character (a % 4 * 16) ∷ []
grouped (a ∷ b ∷ []) =
    character (a / 4) ∷ character (a % 4 * 16 + b / 16) ∷ character (b % 16 * 4) ∷ []
grouped (a ∷ b ∷ c ∷ rest) =
    character (a / 4)
    ∷ character (a % 4 * 16 + b / 16)
    ∷ character (b % 16 * 4 + c / 64)
    ∷ character (c % 64)
    ∷ grouped rest

-- One byte into the accumulator.
abbrev shifted : ℕ → ℕ → ℕ
shifted accumulator byte = accumulator * 256 % 2 ^ 32 + byte

first_sextet : (n a : ℕ) → a < 256 → letter (shifted n a / 2 ^ 2 % 64) ≡ character (a / 4)
first_sextet n a h = ap letter (omega arith) ∙ letter-character (a / 4) (omega arith)

second_sextet :
    (n a b : ℕ)
    → a < 256
    → b < 256
    → letter (shifted (shifted n a) b / 2 ^ 4 % 64) ≡ character (a % 4 * 16 + b / 16)
second_sextet n a b h k =
    ap letter (omega arith) ∙ letter-character (a % 4 * 16 + b / 16) (omega arith)

third_sextet :
    (n b c : ℕ)
    → b < 256
    → c < 256
    → letter (shifted (shifted n b) c / 2 ^ 6 % 64) ≡ character (b % 16 * 4 + c / 64)
third_sextet n b c h k =
    ap letter (omega arith) ∙ letter-character (b % 16 * 4 + c / 64) (omega arith)

fourth_sextet : (n c : ℕ) → c < 256 → letter (shifted n c / 2 ^ 0 % 64) ≡ character (c % 64)
fourth_sextet n c h = ap letter (omega arith) ∙ letter-character (c % 64) (omega arith)

last_of_one :
    (n a : ℕ) → a < 256 → letter (shifted n a * 2 ^ 4 % 2 ^ 32 % 64) ≡ character (a % 4 * 16)
last_of_one n a h = ap letter (omega arith) ∙ letter-character (a % 4 * 16) (omega arith)

last_of_two :
    (n b : ℕ) → b < 256 → letter (shifted n b * 2 ^ 2 % 2 ^ 32 % 64) ≡ character (b % 16 * 4)
last_of_two n b h = ap letter (omega arith) ∙ letter-character (b % 16 * 4) (omega arith)

-- Whatever the accumulator still holds, with no bits pending.
encode-grouped :
    (input : Bytes) (n : ℕ) (output : Bytes)
    → IsBytes input
    → encode input n 0 output ≡ output ++ grouped input
unfolding encode drain
encode-grouped [] n output h = sym (append-nil output)
encode-grouped (a ∷ []) n output h = rw (first_sextet n a h.0, last_of_one n a h.0, append_assoc)
encode-grouped (a ∷ b ∷ []) n output h =
    rw (first_sextet n a h.0, second_sextet n a b h.0 h.1.0, last_of_two (shifted n a) b h.1.0)
      (simp append_assoc)
encode-grouped (a ∷ b ∷ c ∷ rest) n output h =
    rw
      (
        first_sextet n a h.0,
        second_sextet n a b h.0 h.1.0,
        third_sextet (shifted n a) b c h.1.0 h.1.1.0,
        fourth_sextet (shifted (shifted n a) b) c h.1.1.0,
      )
      (encode-grouped rest _ _ h.1.1.1 ∙ simp append_assoc)

-- For every byte string the encoder writes the text of RFC 4648, section 5, without padding: three
-- bytes as four letters, from the letters A to Z, a to z, 0 to 9, - and _ by their ASCII codes.
pub base64url-grouped : (input : Bytes) → IsBytes input → base64url input ≡ grouped input
unfolding base64url
base64url-grouped input h = encode-grouped input 0 [] h
