-- ===== src/Extension/Fields.antt =====
-- src/data360_extension.cpp: the fields that ExpectedArrowSchema expects.
use duckdb_data.Query.Types.{HttpResponse, ColumnMetadata, QueryResponse}
use duckdb_data.Native.Values.{RawJson}
use duckdb_data.Native.Columns.Bounds.{IsColumn}
use duckdb_data.Native.Codec.{Headers, decode_response}
use duckdb_data.Native.Codec.Shape.{decode_response-IsShaped}
use duckdb_data.Extension.{
  ArrowFieldKind, arrow_decimal128, BindError, unsupported_type, incomplete_metadata,
  ExpectedArrowField, kinds, kind_in, plain_field, numeric_field, expected_field,
  expected_arrow_schema,
}
use duckdb_data.Base.{
  ◌≤◌, ◌<◌, ◌≡◌, refl, subst, ◌⊎◌, inl, inr, Bool, true, false, not, ◌||◌, Option, none, some, List,
  [], ◌∷◌, map, if◌then◌else◌, All, codes, bytes_eq, to_lower, >>=-eq-ok, ok-injective, Result, ok,
  err,
}

-- The field of a column: of the kind its type names, or a decimal with the column's digits.
abbrev pub IsField : ColumnMetadata → ExpectedArrowField → Type 0
IsField c f =
    (f.name ≡ c.name)
    × (f.nullable ≡ c.nullable)
    × ((kind_in (map to_lower c.column_type) kinds ≡ some f.kind)
        ⊎ ((f.kind ≡ arrow_decimal128)
            × (bytes_eq (map to_lower c.column_type) (codes "numeric") ≡ true)
            × (f.precision ≡ c.precision)
            × (f.scale ≡ c.scale)
            × (0 < f.precision)
            × (f.precision ≤ 38)
            × (f.scale ≤ f.precision)))

abbrev pub AreFields : List ColumnMetadata → List ExpectedArrowField → Type 0
AreFields [] [] = Unit
AreFields (c ∷ cs) (f ∷ fs) = IsField c f × AreFields cs fs
AreFields _ _ = ⊥

if_err :
    (b : Bool) (e : BindError) (k : Result BindError ExpectedArrowField) (v : ExpectedArrowField)
    → (if b then err e else k) ≡ ok v
    → (b ≡ false) × (k ≡ ok v)
if_err true e k v h = cc
if_err false e k v h = (refl, h)

true_if_not : (b : Bool) → not b ≡ false → b ≡ true
true_if_not true h = refl
true_if_not false h = cc

either_missing : (p s : Bool) → (not p || not s) ≡ false → p ≡ true
either_missing true s h = refl
either_missing false s h = cc

numeric_field-IsField :
    (c : ColumnMetadata) (f : ExpectedArrowField)
    → IsColumn c
    → numeric_field (map to_lower c.column_type) c ≡ ok f
    → IsField c f
numeric_field-IsField c f column h =
    let (a, h1) =
      if_err (not (bytes_eq (map to_lower c.column_type) (codes "numeric"))) unsupported_type _ f
        h in
    let (b, h2) = if_err (not c.has_precision || not c.has_scale) incomplete_metadata _ f h1 in
    let has = either_missing c.has_precision c.has_scale b in
    subst (IsField c) (ok-injective h2) (refl, refl, of_column column has (true_if_not _ a))
  where
    of_column :
        IsColumn c
        → c.has_precision ≡ true
        → bytes_eq (map to_lower c.column_type) (codes "numeric") ≡ true
        → (kind_in (map to_lower c.column_type) kinds ≡ some arrow_decimal128)
          ⊎ ((arrow_decimal128 ≡ arrow_decimal128)
              × (bytes_eq (map to_lower c.column_type) (codes "numeric") ≡ true)
              × (c.precision ≡ c.precision)
              × (c.scale ≡ c.scale)
              × (0 < c.precision)
              × (c.precision ≤ 38)
              × (c.scale ≤ c.precision))
    of_column (inl (none_p, none_s)) has numeric = cc
    of_column (inr (p, s, n, positive, most, below)) has numeric =
        inr (refl, numeric, refl, refl, positive, most, below)

expected_field-IsField :
    (c : ColumnMetadata) (f : ExpectedArrowField)
    → IsColumn c
    → expected_field c ≡ ok f
    → IsField c f
unfolding expected_field
expected_field-IsField c f column h = by_kind (kind_in (map to_lower c.column_type) kinds) refl h
  where
    by_kind :
        (kind : Option ArrowFieldKind)
        → kind_in (map to_lower c.column_type) kinds ≡ kind
        → ◌≡◌ {A = Result BindError ExpectedArrowField}
            (elim kind [
              | some k ↦ ok (plain_field c k)
              | none ↦ numeric_field (map to_lower c.column_type) c
            ])
            (ok f)
        → IsField c f
    by_kind none e same = numeric_field-IsField c f column same
    by_kind (some k) e same = subst (IsField c) (ok-injective same) (refl, refl, inl e)

expected_arrow_schema-AreFields :
    (cs : List ColumnMetadata) (fs : List ExpectedArrowField)
    → All IsColumn cs
    → expected_arrow_schema cs ≡ ok fs
    → AreFields cs fs
unfolding expected_arrow_schema
expected_arrow_schema-AreFields [] fs all h = subst (AreFields []) (ok-injective h) tt
expected_arrow_schema-AreFields (c ∷ cs) fs all h =
    let (f, e, h1) = >>=-eq-ok (expected_field c) _ h in
    let (rest, g, h2) = >>=-eq-ok (expected_arrow_schema cs) _ h1 in
    subst (AreFields (c ∷ cs)) (ok-injective h2)
      (expected_field-IsField c f all.0 e, expected_arrow_schema-AreFields cs rest all.1 g)

-- When ExpectedArrowSchema accepts the columns of a response that Decode gave, it expects a field for
-- each column, in their order and with its name and nullability: of the kind that the table of type
-- names gives, or, for a numeric column, a decimal with the column's precision and scale, where the
-- precision is from 1 to 38 and the scale is not above it.
pub decode_response-expected_arrow_schema :
    {V : Type 0} (raw : RawJson V) (headers : Headers) (response : HttpResponse) (r : QueryResponse)
    (fields : List ExpectedArrowField)
    → decode_response raw headers response ≡ ok r
    → expected_arrow_schema r.metadata ≡ ok fields
    → AreFields r.metadata fields
decode_response-expected_arrow_schema raw headers response r fields decoded accepted =
    expected_arrow_schema-AreFields r.metadata fields
      (decode_response-IsShaped raw headers response r decoded).2.0 accepted
