-- ===== src/Extension.antt =====
-- src/data360_extension.cpp: ExpectedArrowSchema and ArrowContentType. Headers are in their order.
pub mod Fields
mod Examples
use duckdb_data.Query.Types.{ColumnMetadata}
use duckdb_data.TypeMapping.{is_one_of}
use duckdb_data.Native.Codec.{Headers}
use duckdb_data.Base.{
  ℕ, String, Bool, not, ◌||◌, Option, none, some, List, [], ◌∷◌, map, if◌then◌else◌, Bytes, codes,
  bytes_eq, is_empty, to_lower, ◌>>=◌, ◌>>◌, Result, ok, err,
}

pub data ArrowFieldKind : Type 0 where
  arrow_bool arrow_int32 arrow_int64 arrow_double arrow_utf8 arrow_date32 : ArrowFieldKind
  arrow_date64 arrow_timestamp_us_utc arrow_decimal128 : ArrowFieldKind

pub data BindError : Type 0 where
  incomplete_metadata unsupported_type invalid_headers : BindError

pub record ExpectedArrowField : Type 0 where
  pub name : Bytes
  pub kind : ArrowFieldKind
  pub nullable : Bool
  pub precision : ℕ
  pub scale : ℕ

-- The tests on the type's name but the one for "numeric", in their order.
abbrev pub kinds : List (List String × ArrowFieldKind)
kinds =
    ("bool" ∷ "boolean" ∷ [], arrow_bool)
    ∷ ("integer" ∷ "int" ∷ [], arrow_int32)
    ∷ ("bigint" ∷ [], arrow_int64)
    ∷ ("double" ∷ [], arrow_double)
    ∷ ("varchar" ∷ "string" ∷ [], arrow_utf8)
    ∷ ("date" ∷ [], arrow_date64)
    ∷ ("timestamp" ∷ "timestamptz" ∷ "timestamp_with_time_zone" ∷ [], arrow_timestamp_us_utc)
    ∷ []

unfoldable pub kind_in : Bytes → List (List String × ArrowFieldKind) → Option ArrowFieldKind
kind_in type [] = none
kind_in type ((names, kind) ∷ rows) =
    let rest = kind_in type rows in if is_one_of names type then some kind else rest

abbrev pub plain_field : ColumnMetadata → ArrowFieldKind → ExpectedArrowField
plain_field column kind = record {
  name = column.name;
  kind = kind;
  nullable = column.nullable;
  precision = 0;
  scale = 0;
}

abbrev pub numeric_field : Bytes → ColumnMetadata → Result BindError ExpectedArrowField
numeric_field type column =
    if not (bytes_eq type (codes "numeric"))
    then err unsupported_type
    else if not column.has_precision || not column.has_scale
    then err incomplete_metadata
    else ok (record (plain_field column arrow_decimal128) {
      precision = column.precision;
      scale = column.scale;
    })

unfoldable pub expected_field : ColumnMetadata → Result BindError ExpectedArrowField
unfolding kind_in to_lower
expected_field column =
    let type = map to_lower column.column_type in
    elim (kind_in type kinds) [
      | some kind ↦ ok (plain_field column kind)
      | none ↦ numeric_field type column
    ]

unfoldable pub expected_arrow_schema :
    List ColumnMetadata → Result BindError (List ExpectedArrowField)
unfolding expected_field
expected_arrow_schema [] = ok []
expected_arrow_schema (column ∷ metadata) = do
  field ← expected_field column
  fields ← expected_arrow_schema metadata
  ok (field ∷ fields)

-- The loop on the headers, with the `result` that it has so far.
unfoldable pub content_type_from : Bytes → Headers → Result BindError Bytes
unfolding to_lower
content_type_from result [] = if is_empty result then err invalid_headers else ok result
content_type_from result ((key, value) ∷ headers) =
    let skipped = content_type_from result headers in
    let taken = content_type_from value headers in
    if not (bytes_eq (map to_lower key) (codes "content-type"))
    then skipped
    else if not (is_empty result)
    then err invalid_headers
    else taken

abbrev pub arrow_content_type : Headers → Result BindError Bytes
arrow_content_type headers = content_type_from [] headers
