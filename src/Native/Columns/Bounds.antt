-- ===== src/Native/Columns/Bounds.antt =====
-- src/native_runtime.cpp: the bounds of the columns that Decode gives.
use duckdb_data.Query.Types.{ColumnMetadata}
use duckdb_data.Native.Values.{
  CodecError, invalid_column, unexpected_shape, incomplete_numeric, invalid_numeric,
  optional_unsigned, RawJson,
}
use duckdb_data.Native.Columns.{
  with_digits, complete_column, decode_digits, decode_column, decode_columns, is_some,
  text_at_either, bool_at,
}
use duckdb_data.Base.{
  ℕ, ◌≤◌, ◌<◌, ◌≡◌, refl, subst, ◌⊎◌, inl, inr, Bool, true, false, not, ◌&&◌, ◌||◌, Option, none,
  some, List, [], ◌∷◌, map, arith, ltb, ◌==◌, if◌then◌else◌, All, Bytes, codes, bytes_eq, to_lower,
  >>=-eq-ok, throw_if-eq-ok, ok-injective, Result, ok, err,
}

-- A column without precision and scale, or a numeric one with both within their bounds.
abbrev pub IsColumn : ColumnMetadata → Type 0
IsColumn c =
    ((c.has_precision ≡ false) × (c.has_scale ≡ false))
    ⊎ ((c.has_precision ≡ true)
        × (c.has_scale ≡ true)
        × (bytes_eq (map to_lower c.column_type) (codes "numeric") ≡ true)
        × (0 < c.precision)
        × (c.precision ≤ 38)
        × (c.scale ≤ c.precision))

if_err :
    {A : Type 0} (b : Bool) (e : CodecError) (k : Result CodecError A) (v : A)
    → (if b then err e else k) ≡ ok v
    → (b ≡ false) × (k ≡ ok v)
if_err true e k v h = cc
if_err false e k v h = (refl, h)

numeric_if_present : (n p s : Bool) → (not n && (p || s)) ≡ false → p ≡ true → n ≡ true
numeric_if_present true p s h g = refl
numeric_if_present false true s h g = cc
numeric_if_present false false s h g = cc

module _ {V : Type 0} (raw : RawJson V) where
  with_digits-IsColumn :
      (column c : ColumnMetadata) (p s : Option ℕ)
      → bytes_eq (map to_lower column.column_type) (codes "numeric") ≡ true
      → with_digits raw column p s ≡ ok c
      → IsColumn c
  with_digits-IsColumn column c none s n h = cc
  with_digits-IsColumn column c (some p) none n h = cc
  with_digits-IsColumn column c (some p) (some s) n h =
      let (a, same) = if_err (p == 0 || ltb 38 p || ltb p s) invalid_numeric _ c h in
      subst IsColumn (ok-injective same)
        (inr (refl, refl, n, ground (arith, a), ground (arith, a), ground (arith, a)))

  plain_or_read :
      (present : Bool) (column c : ColumnMetadata) (read : Result CodecError ColumnMetadata)
      → IsColumn column
      → (present ≡ true → read ≡ ok c → IsColumn c)
      → (if present then read else ok column) ≡ ok c
      → IsColumn c
  plain_or_read true column c read p r h = r refl h
  plain_or_read false column c read p r h = subst IsColumn (ok-injective h) p

  decode_digits-IsColumn :
      (object : V) (column c : ColumnMetadata)
      → IsColumn column
      → decode_digits raw object column ≡ ok c
      → IsColumn c
  unfolding decode_digits
  decode_digits-IsColumn object column c plain h =
      let n = bytes_eq (map to_lower column.column_type) (codes "numeric") in
      let p = is_some (raw.json.get object (codes "precision")) in
      let s = is_some (raw.json.get object (codes "scale")) in
      let (a, h1) = if_err (not n && (p || s)) unexpected_shape _ c h in
      let (b, h2) = if_err ((p && not s) || (s && not p)) incomplete_numeric _ c h1 in
      plain_or_read p column c _ plain
        (λ present read.
          let (precision, e, h3) =
            >>=-eq-ok (optional_unsigned raw object (codes "precision")) _ read in
          let (scale, g, h4) = >>=-eq-ok (optional_unsigned raw object (codes "scale")) _ h3 in
          with_digits-IsColumn column c precision scale (numeric_if_present n p s a present) h4)
        h2

  complete_column-IsColumn :
      (name type : Option Bytes) (nullable : Option Bool) (c : ColumnMetadata)
      → complete_column raw name type nullable ≡ ok c
      → IsColumn c
  complete_column-IsColumn none type nullable c h = cc
  complete_column-IsColumn (some name) none nullable c h = cc
  complete_column-IsColumn (some name) (some type) none c h = cc
  complete_column-IsColumn (some name) (some type) (some nullable) c h =
      subst IsColumn (ok-injective h) (inl (refl, refl))

  decode_column-IsColumn :
      (object : V) (c : ColumnMetadata) → decode_column raw object ≡ ok c → IsColumn c
  unfolding decode_column
  decode_column-IsColumn object c h =
      let (a, h1) = throw_if-eq-ok (not (raw.json.is_obj object)) invalid_column _ h in
      let (column, plain, h2) =
        >>=-eq-ok
          (complete_column raw (text_at_either raw object (codes "name") (codes "columnName"))
            (text_at_either raw object (codes "type") (codes "typeName"))
            (bool_at raw object (codes "nullable")))
          _ h1 in
      decode_digits-IsColumn object column c (complete_column-IsColumn _ _ _ column plain) h2

  pub decode_columns-IsColumn :
      (vs : List V) (cs : List ColumnMetadata) → decode_columns raw vs ≡ ok cs → All IsColumn cs
  unfolding decode_columns
  decode_columns-IsColumn [] cs h = subst (All IsColumn) (ok-injective h) tt
  decode_columns-IsColumn (v ∷ vs) cs h =
      let (c, e, h1) = >>=-eq-ok (decode_column raw v) _ h in
      let (rest, g, h2) = >>=-eq-ok (decode_columns raw vs) _ h1 in
      subst (All IsColumn) (ok-injective h2)
        (decode_column-IsColumn v c e, decode_columns-IsColumn vs rest g)
