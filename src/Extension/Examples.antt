-- ===== src/Extension/Examples.antt =====
-- The theorem on the expected fields, applied.
use duckdb_data.Query.Types.{QueryResponse, ColumnMetadata, complete}
use duckdb_data.Native.Values.{RawJson}
use duckdb_data.Native.Codec.{empty_response, decode_response}
use duckdb_data.Extension.{
  ExpectedArrowField, arrow_decimal128, arrow_date64, expected_arrow_schema,
}
use duckdb_data.Extension.Fields.{AreFields, decode_response-expected_arrow_schema}
use duckdb_data.Base.{
  refl, Bool, true, false, Option, none, some, List, [], ◌∷◌, if◌then◌else◌, Bytes, codes, bytes_eq,
  to_lower,
}

-- A document with a column of dates and one of decimals.
data Value : Type 0 where
  text digits : Bytes → Value
  nullable root columns day price : Value

abbrev member : Value → Bytes → Option Value
member root name = if bytes_eq name (codes "columns") then some columns else none
member day name =
    if bytes_eq name (codes "name")
    then some (text (codes "day"))
    else if bytes_eq name (codes "type")
    then some (text (codes "Date"))
    else if bytes_eq name (codes "nullable")
    then some nullable
    else none
member price name =
    if bytes_eq name (codes "name")
    then some (text (codes "price"))
    else if bytes_eq name (codes "type")
    then some (text (codes "Numeric"))
    else if bytes_eq name (codes "nullable")
    then some nullable
    else if bytes_eq name (codes "precision")
    then some (digits (codes "10"))
    else if bytes_eq name (codes "scale")
    then some (digits (codes "2"))
    else none
member _ name = none

abbrev elements_of : Value → Option (List Value)
elements_of columns = some (day ∷ price ∷ [])
elements_of _ = none

abbrev text_of : Value → Option Bytes
text_of (text t) = some t
text_of _ = none

abbrev digits_of : Value → Option Bytes
digits_of (digits t) = some t
digits_of _ = none

abbrev flag_of : Value → Option Bool
flag_of nullable = some true
flag_of _ = none

abbrev is_object : Value → Bool
is_object root = true
is_object day = true
is_object price = true
is_object _ = false

abbrev reader : RawJson Value
reader = record {
  json = record {
    read = λ body. some root;
    is_obj = is_object;
    members = λ v. [];
    elements = elements_of;
    get = member;
    as_str = text_of;
    as_uint = λ v. none;
    as_bool = flag_of;
    is_null = λ v. false;
  };
  read_raw = λ body. some root;
  as_raw = digits_of;
  other_number = λ v. none;
}

abbrev day_column : ColumnMetadata
day_column = record {
  name = codes "day";
  column_type = codes "Date";
  nullable = true;
  has_precision = false;
  has_scale = false;
  precision = 0;
  scale = 0;
}

abbrev price_column : ColumnMetadata
price_column = record {
  name = codes "price";
  column_type = codes "Numeric";
  nullable = true;
  has_precision = true;
  has_scale = true;
  precision = 10;
  scale = 2;
}

abbrev answer : QueryResponse
answer = record empty_response { state = complete; metadata = day_column ∷ price_column ∷ [] }

abbrev fields : List ExpectedArrowField
fields =
    record { name = codes "day"; kind = arrow_date64; nullable = true; precision = 0; scale = 0 }
    ∷ record {
      name = codes "price";
      kind = arrow_decimal128;
      nullable = true;
      precision = 10;
      scale = 2;
    }
    ∷ []

decode_response-expected_arrow_schema_example : AreFields (day_column ∷ price_column ∷ []) fields
unfolding decode_response expected_arrow_schema bytes_eq to_lower
decode_response-expected_arrow_schema_example =
    decode_response-expected_arrow_schema reader [] (record { status = 200; body = codes "{}" })
      answer fields refl refl
