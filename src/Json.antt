-- ===== src/Json.antt =====
-- yyjson, as src/oauth_pkce.cpp, src/salesforce_oauth_provider.cpp and src/native_runtime.cpp read a
-- document with it. The library is not part of the repository, so its functions are an argument.
use duckdb_data.Base.{
  ℕ, ◌*◌, Bool, true, false, not, ◌&&◌, ◌||◌, Option, none, some, List, [], ◌∷◌, ltb, ◌==◌,
  if◌then◌else◌, length, Bytes, bytes_eq, is_empty,
}

-- `read` is yyjson_read with the root of the document, `members` the keys that yyjson_obj_iter_next
-- gives with their values, `get` yyjson_obj_get, and `as_…` a test yyjson_is_… with its getter.
pub record Json (V : Type 0) : Type 0 where
  pub read : Bytes → Option V
  pub is_obj : V → Bool
  pub members : V → List (V × V)
  pub elements : V → Option (List V)
  pub get : V → Bytes → Option V
  pub as_str : V → Option Bytes
  pub as_uint : V → Option ℕ
  pub as_bool : V → Option Bool
  pub is_null : V → Bool

-- Whether `names` has been seen.
unfoldable pub is_in : Bytes → List Bytes → Bool
is_in name [] = false
is_in name (x ∷ seen) = bytes_eq name x || is_in name seen

-- names.emplace(name).second, for each name in turn.
unfoldable pub are_distinct : List Bytes → List Bytes → Bool
unfolding is_in
are_distinct seen [] = true
are_distinct seen (name ∷ names) =
    let rest = are_distinct (name ∷ seen) names in not (is_in name seen) && rest

-- A string that is neither empty nor longer than `maximum`.
abbrev pub within_bound : ℕ → Option Bytes → Option Bytes
within_bound maximum none = none
within_bound maximum (some text) =
    if is_empty text || ltb maximum (length text) then none else some text

-- A number that is neither zero nor greater than `maximum`.
abbrev pub positive_up_to : ℕ → Option ℕ → Option ℕ
positive_up_to maximum none = none
positive_up_to maximum (some n) = if n == 0 || ltb maximum n then none else some n

module _ {V : Type 0} (json : Json V) where
  -- yyjson_get_str of a key; it is null where the key is no string, which is read as no bytes.
  abbrev pub key_name : V × V → Bytes
  key_name (key, value) = elim (json.as_str key) [ none ↦ [] | some name ↦ name ]

  -- A member that must be a string within a bound.
  abbrev pub string_of : ℕ → Option V → Option Bytes
  string_of maximum none = none
  string_of maximum (some value) = within_bound maximum (json.as_str value)

  -- A member that may be missing, and must be the string given otherwise.
  abbrev pub is_missing_or : Bytes → ℕ → Option V → Bool
  is_missing_or expected maximum none = true
  is_missing_or expected maximum (some value) = elim (string_of maximum (some value)) [
    | none ↦ false
    | some text ↦ bytes_eq text expected
  ]

  -- A lifetime in seconds that may be missing.
  abbrev pub lifetime_or : ℕ → Option V → Option ℕ
  lifetime_or absent none = some absent
  lifetime_or absent (some value) = positive_up_to (86400 * 365) (json.as_uint value)
