-- ===== src/Native/Columns.antt =====
-- src/native_runtime.cpp: the columns that Decode reads.
pub mod Bounds
use duckdb_data.Query.Types.{ColumnMetadata}
use duckdb_data.Native.Values.{
  CodecError, invalid_column, incomplete_column, unexpected_shape, incomplete_numeric,
  invalid_numeric, RawJson, text_at, optional_unsigned,
}
use duckdb_data.Base.{
  ℕ, Bool, true, false, not, ◌&&◌, ◌||◌, Option, none, some, List, [], ◌∷◌, map, ltb, ◌==◌,
  if◌then◌else◌, Bytes, codes, bytes_eq, to_lower, ◌>>=◌, ◌>>◌, throw_if, Result, ok, err,
}

abbrev pub is_some : {A : Type 0} → Option A → Bool
is_some none = false
is_some (some a) = true

module _ {V : Type 0} (raw : RawJson V) where
  -- A text under either of two names.
  abbrev pub text_at_either : V → Bytes → Bytes → Option Bytes
  text_at_either object name other = elim (text_at raw object name) [
    | none ↦ text_at raw object other
    | some text ↦ some text
  ]

  abbrev pub bool_at : V → Bytes → Option Bool
  bool_at object name = elim (raw.json.get object name) [
    | none ↦ none
    | some v ↦ raw.json.as_bool v
  ]

  abbrev pub plain_column : Bytes → Bytes → Bool → ColumnMetadata
  plain_column name type nullable = record {
    name = name;
    column_type = type;
    nullable = nullable;
    has_precision = false;
    has_scale = false;
    precision = 0;
    scale = 0;
  }

  -- Both counts, which OptionalUnsigned gives, within their bounds.
  abbrev pub with_digits : ColumnMetadata → Option ℕ → Option ℕ → Result CodecError ColumnMetadata
  with_digits column (some precision) (some scale) =
      if precision == 0 || ltb 38 precision || ltb precision scale
      then err invalid_numeric
      else ok (record column {
        has_precision = true;
        has_scale = true;
        precision = precision;
        scale = scale;
      })
  with_digits column _ _ = err invalid_numeric

  -- The precision and the scale of a column, if it has them.
  unfoldable pub decode_digits : V → ColumnMetadata → Result CodecError ColumnMetadata
  unfolding optional_unsigned to_lower
  decode_digits object column =
      let precision_present = is_some (raw.json.get object (codes "precision")) in
      let scale_present = is_some (raw.json.get object (codes "scale")) in
      let read = (do
        precision ← optional_unsigned raw object (codes "precision")
        scale ← optional_unsigned raw object (codes "scale")
        with_digits column precision scale) in
      if not (bytes_eq (map to_lower column.column_type) (codes "numeric"))
        && (precision_present || scale_present)
      then err unexpected_shape
      else if (precision_present && not scale_present) || (scale_present && not precision_present)
      then err incomplete_numeric
      else if precision_present
      then read
      else ok column

  abbrev pub complete_column :
      Option Bytes → Option Bytes → Option Bool → Result CodecError ColumnMetadata
  complete_column (some name) (some type) (some nullable) = ok (plain_column name type nullable)
  complete_column _ _ _ = err incomplete_column

  unfoldable pub decode_column : V → Result CodecError ColumnMetadata
  unfolding decode_digits
  decode_column object = do
    throw_if (not (raw.json.is_obj object)) invalid_column
    column ←
        complete_column (text_at_either object (codes "name") (codes "columnName"))
          (text_at_either object (codes "type") (codes "typeName"))
          (bool_at object (codes "nullable"))
    decode_digits object column

  unfoldable pub decode_columns : List V → Result CodecError (List ColumnMetadata)
  unfolding decode_column
  decode_columns [] = ok []
  decode_columns (v ∷ vs) = do
    column ← decode_column v
    columns ← decode_columns vs
    ok (column ∷ columns)
