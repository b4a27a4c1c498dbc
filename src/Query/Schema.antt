-- ===== src/Query/Schema.antt =====
-- SameMetadata of src/query_api.cpp and MetadataCompatible of src/scan_runtime.cpp.
use duckdb_data.Query.Types.{ColumnMetadata}
use duckdb_data.Query.Checks.{bool_eq, same_column, same_metadata}
use duckdb_data.Base.{
  ◌≡◌, refl, sym, ◌∙◌, subst, ◌↔◌, Bool, true, false, ◌&&◌, List, [], ◌∷◌, arith, bytes_eq_iff,
  bytes_eq_refl,
}

-- MetadataCompatible, for the schema at the time of binding and that of the execution.
unfoldable pub metadata_compatible : List ColumnMetadata → List ColumnMetadata → Bool
unfolding same_column
metadata_compatible [] [] = true
metadata_compatible (b ∷ bound) (e ∷ execution) =
    same_column b e && metadata_compatible bound execution
metadata_compatible _ _ = false

bool_eq_lem : (a b : Bool) → bool_eq a b ≡ true → a ≡ b
bool_eq_lem true true e = refl
bool_eq_lem false false e = refl
bool_eq_lem true false e = sym e
bool_eq_lem false true e = e

same_column-eq : (a b : ColumnMetadata) → same_column a b ≡ true → a ≡ b
unfolding same_column
same_column-eq a b h = ground (
  arith,
  h,
  bytes_eq_iff a.name b.name,
  bytes_eq_iff a.column_type b.column_type,
  bool_eq_lem a.nullable b.nullable,
  bool_eq_lem a.has_precision b.has_precision,
  bool_eq_lem a.has_scale b.has_scale,
)

same_column_self : (a : ColumnMetadata) → same_column a a ≡ true
unfolding same_column
same_column_self a = ground (arith, bytes_eq_refl a.name, bytes_eq_refl a.column_type)

metadata-eq : (a b : List ColumnMetadata) → same_metadata a b ≡ true → a ≡ b
unfolding same_metadata
metadata-eq [] [] h = refl
metadata-eq (x ∷ a) (y ∷ b) h = ground (arith, h, same_column-eq x y, metadata-eq a b)
metadata-eq [] (y ∷ b) h = cc
metadata-eq (x ∷ a) [] h = cc

metadata_self : (a : List ColumnMetadata) → same_metadata a a ≡ true
unfolding same_metadata
metadata_self [] = refl
metadata_self (x ∷ a) = ground (arith, same_column_self x, metadata_self a)

compatible-same : (a b : List ColumnMetadata) → metadata_compatible a b ≡ same_metadata a b
unfolding same_metadata metadata_compatible
compatible-same [] [] = refl
compatible-same (x ∷ a) (y ∷ b) = ground (arith, compatible-same a b)
compatible-same [] (y ∷ b) = refl
compatible-same (x ∷ a) [] = refl

-- Both tests of a schema are true exactly for equal lists of columns.
pub same_metadata_iff :
    (a b : List ColumnMetadata)
    → ((same_metadata a b ≡ true) ↔ (a ≡ b)) × ((metadata_compatible a b ≡ true) ↔ (a ≡ b))
same_metadata_iff a b = (
  (metadata-eq a b, self),
  (λ h. metadata-eq a b (sym (compatible-same a b) ∙ h), λ e. compatible-same a b ∙ self e),
)
  where
    self : a ≡ b → same_metadata a b ≡ true
    self e = subst (λ x. same_metadata a x ≡ true) e (metadata_self a)
