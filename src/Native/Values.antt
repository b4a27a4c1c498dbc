-- ===== src/Native/Values.antt =====
-- src/native_runtime.cpp: TryUnsigned, OptionalUnsigned, JsonScalar and HasInvalidSessionCode. `read_raw` is yyjson_read with numbers kept
-- as their text, and `other_number` the text of a number that is neither raw nor unsigned.
use duckdb_data.Json.{Json}
use duckdb_data.Base.{
  ℕ, ◌+◌, ◌-◌, ◌*◌, ◌^◌, Bool, true, false, not, ◌&&◌, ◌||◌, Option, none, some, List, [], ◌∷◌, ltb,
  if◌then◌else◌, Bytes, codes, bytes_eq, is_empty, all_of, is_digit, to_string, ◌>>=◌, ◌>>◌,
  throw_if, or_throw, Result, ok, err,
}

-- The exceptions, one constructor for each message, ReauthRequiredException the first.
pub data CodecError : Type 0 where
  codec_reauth_required request_failed invalid_json invalid_count : CodecError
  non_scalar_value invalid_column incomplete_column : CodecError
  unexpected_shape incomplete_numeric invalid_numeric invalid_row unknown_shape : CodecError

pub record RawJson (V : Type 0) : Type 0 where
  pub json : Json V
  pub read_raw : Bytes → Option V
  pub as_raw : V → Option Bytes
  pub other_number : V → Option Bytes

-- std::stoull of digits, whose value must fit.
abbrev pub digits_value : ℕ → Bytes → ℕ
digits_value n [] = n
digits_value n (c ∷ digits) = digits_value (10 * n + (c - b'0')) digits

unfoldable pub parse_unsigned : Bytes → Option ℕ
unfolding all_of
parse_unsigned raw =
    if is_empty raw || not (all_of is_digit raw)
    then none
    else if ltb (digits_value 0 raw) (2 ^ 64)
    then some (digits_value 0 raw)
    else none

module _ {V : Type 0} (raw : RawJson V) where
  abbrev pub text_at : V → Bytes → Option Bytes
  text_at object name = elim (raw.json.get object name) [ none ↦ none | some v ↦ raw.json.as_str v ]

  -- Parse: the root, which must be an object.
  unfoldable pub parse : Bytes → Result CodecError V
  parse body = do
    root ← or_throw (raw.read_raw body) invalid_json
    throw_if (not (raw.json.is_obj root)) invalid_json
    ok root

  -- The element of a list of one, or the root itself.
  abbrev pub error_of : V → Option (List V) → V
  error_of root (some (first ∷ [])) = first
  error_of root _ = root

  abbrev pub is_text : Bytes → Option Bytes → Bool
  is_text expected none = false
  is_text expected (some text) = bytes_eq text expected

  unfoldable pub has_invalid_session_code : Bytes → Bool
  has_invalid_session_code body = elim (raw.json.read body) [
    | none ↦ false
    | some root ↦
        let error = error_of root (raw.json.elements root) in
        raw.json.is_obj error
        && is_text (codes "INVALID_SESSION_ID") (text_at error (codes "errorCode"))
  ]

  abbrev pub unsigned_text : Option Bytes → Option ℕ
  unsigned_text none = none
  unsigned_text (some digits) = parse_unsigned digits

  unfoldable pub try_unsigned : V → Option ℕ
  unfolding parse_unsigned
  try_unsigned value = elim (raw.json.as_uint value) [
    | some n ↦ some n
    | none ↦ unsigned_text (raw.as_raw value)
  ]

  abbrev pub unsigned_of : Option V → Result CodecError (Option ℕ)
  unsigned_of none = ok none
  unsigned_of (some value) = elim (try_unsigned value) [
    | none ↦ err invalid_count
    | some n ↦ ok (some n)
  ]

  -- A count that may be missing.
  unfoldable pub optional_unsigned : V → Bytes → Result CodecError (Option ℕ)
  unfolding try_unsigned
  optional_unsigned object key = unsigned_of (raw.json.get object key)

  abbrev pub first_text : Option Bytes → Option Bytes → Option Bytes
  first_text none other = other
  first_text (some text) other = some text

  abbrev pub bool_text : Option Bool → Option Bytes
  bool_text none = none
  bool_text (some true) = some (codes "true")
  bool_text (some false) = some (codes "false")

  abbrev pub uint_text : Option ℕ → Option Bytes
  uint_text none = none
  uint_text (some n) = some (to_string n)

  -- The tests in their order; what is no scalar has none of the texts.
  unfoldable pub json_scalar : V → Result CodecError Bytes
  unfolding to_string
  json_scalar value =
      or_throw
        (first_text (raw.json.as_str value) (
          first_text (bool_text (raw.json.as_bool value)) (
            first_text (raw.as_raw value)
              (first_text (uint_text (raw.json.as_uint value)) (raw.other_number value)))))
        non_scalar_value
