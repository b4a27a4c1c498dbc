-- ===== src/Callback/Decode.antt =====
-- src/loopback_listener.cpp: HexValue, PercentDecode and ParseQuery.
pub mod RoundTrip
use duckdb_data.Registry.Map.{lookup, has, emplace}
use duckdb_data.Callback.Types.{
  CallbackError, malformed_callback, oversized_field, duplicate_field, max_callback_value_bytes,
}
use duckdb_data.Base.{
  ℕ, zero, suc, ◌+◌, ◌-◌, ◌*◌, ◌||◌, Option, none, some, List, [], ◌∷◌, ltb, ◌==◌, if◌then◌else◌,
  length, Bytes, codes, is_empty, within, is_digit, is_cntrl, cut, ◌>>=◌, ◌>>◌, throw_if, or_throw,
  Result, ok, err,
}

-- `none` is -1.
unfoldable pub hex_value : ℕ → Option ℕ
hex_value c =
    if is_digit c
    then some (c - b'0')
    else if within b'A' b'F' c
    then some (c - b'A' + 10)
    else if within b'a' b'f' c
    then some (c - b'a' + 10)
    else none

-- One `%XX`: the byte that it stands for.
unfoldable pub unescape : Option ℕ → Option ℕ → Result CallbackError ℕ
unescape none low = err malformed_callback
unescape (some high) none = err malformed_callback
unescape (some high) (some low) =
    if is_cntrl (high * 16 + low) then err malformed_callback else ok (high * 16 + low)

-- A byte that stands for itself.
unfoldable pub plain : ℕ → Result CallbackError ℕ
plain c = if c == b'%' || c == b'+' || is_cntrl c then err malformed_callback else ok c

-- The loop, by what is left of the value.
unfoldable pub decode_bytes : Bytes → Result CallbackError Bytes
unfolding unescape plain hex_value
decode_bytes [] = ok []
decode_bytes (c ∷ []) = do d ← plain c; ok (d ∷ [])
decode_bytes (c ∷ h ∷ []) = do d ← plain c; rest ← decode_bytes (h ∷ []); ok (d ∷ rest)
decode_bytes (c ∷ h ∷ l ∷ value) =
    let escaped =
      unescape (hex_value h) (hex_value l) >>= λ d. decode_bytes value >>= λ rest. ok (d ∷ rest) in
    let bare = plain c >>= λ d. decode_bytes (h ∷ l ∷ value) >>= λ rest. ok (d ∷ rest) in
    if c == b'%' then escaped else bare

unfoldable pub percent_decode : Bytes → Result CallbackError Bytes
unfolding decode_bytes
percent_decode value = do
  output ← decode_bytes value
  throw_if (ltb max_callback_value_bytes (length output)) oversized_field
  ok output

abbrev pub Fields : Type 0
Fields = List (Bytes × Bytes)

-- One `key=value`, entered into the map.
unfoldable pub parse_item : Bytes → Fields → Result CallbackError Fields
unfolding percent_decode cut lookup emplace
parse_item item values = do
  halves ← or_throw (cut (codes "=") item) malformed_callback
  throw_if (is_empty item || is_empty halves.0) malformed_callback
  key ← percent_decode halves.0
  value ← percent_decode halves.1
  throw_if (has key values) duplicate_field
  ok (emplace key value values)

-- The loop over the items: a round takes at least one `&` away.
unfoldable pub parse_items : ℕ → Bytes → Fields → Result CallbackError Fields
unfolding parse_item
parse_items zero query values = err malformed_callback
parse_items (suc rounds) query values = elim (cut (codes "&") query) [
  | none ↦ parse_item query values
  | some (item, rest) ↦ parse_item item values >>= λ more. parse_items rounds rest more
]

unfoldable pub parse_query : Bytes → Result CallbackError Fields
unfolding parse_items
parse_query query = parse_items (length query + 1) query []
