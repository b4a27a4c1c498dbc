-- ===== src/TypeMapping.antt =====
-- src/type_mapping.cpp: the DuckDB type and the Arrow format of a Data 360 type.
pub mod Stable
mod Examples
use duckdb_data.Base.{
  ℕ, ◌+◌, ◌-◌, ◌*◌, ◌^◌, String, Bool, true, false, not, ◌&&◌, ◌||◌, Option, none, some, List, [],
  ◌∷◌, ◌++◌, map, ltb, ◌==◌, if◌then◌else◌, drop, Bytes, codes, bytes_eq, is_empty, starts_with,
  all_of, is_lower, is_digit, back, pop_back, cut,
}

pub record TypeMapping : Type 0 where
  pub duckdb_type : Bytes
  pub arrow_format : Bytes
  pub lossy : Bool

abbrev pub mapping : String → String → TypeMapping
mapping t f = record { duckdb_type = codes t; arrow_format = codes f; lossy = false }

abbrev pub unknown : TypeMapping
unknown = record { duckdb_type = codes "VARCHAR"; arrow_format = codes "u"; lossy = true }

-- std::toupper in the "C" locale.
unfoldable pub to_upper : ℕ → ℕ
to_upper c = if is_lower c then c - 32 else c

abbrev pub are_digits : Bytes → Bool
are_digits s = not (is_empty s) && all_of is_digit s

-- The two groups of DECIMAL\(([0-9]+),([0-9]+)\), where the whole name matches.
unfoldable pub decimal_groups : Bytes → Option (Bytes × Bytes)
unfolding starts_with cut all_of
decimal_groups name =
    if not (starts_with (codes "DECIMAL(") name)
    then none
    else elim (cut (codes ",") (drop 8 name)) [
      | none ↦ none
      | some (precision, behind) ↦
          if are_digits precision && back behind == b')' && are_digits (pop_back behind)
          then some (precision, pop_back behind)
          else none
    ]

-- std::stoul of digits; `none` is std::out_of_range.
abbrev pub value_onto : ℕ → Bytes → ℕ
value_onto n [] = n
value_onto n (c ∷ s) = value_onto (n * 10 + (c - 48)) s

unfoldable pub stoul : Bytes → Option ℕ
stoul s = if ltb (value_onto 0 s) (2 ^ 64) then some (value_onto 0 s) else none

pub decimal : Bytes → Bytes → Bytes → TypeMapping
unfolding stoul
decimal name precision scale = elim (stoul precision) [
  | none ↦ unknown
  | some p ↦ elim (stoul scale) [
    | none ↦ unknown
    | some s ↦ if p == 0 || ltb 38 p || ltb p s then unknown else record {
      duckdb_type = name;
      arrow_format = codes "d:" ++ (precision ++ (codes "," ++ scale));
      lossy = false;
    }
  ]
]

abbrev pub is_one_of : List String → Bytes → Bool
is_one_of [] name = false
is_one_of (n ∷ ns) name = bytes_eq name (codes n) || is_one_of ns name

-- The tests of the names without parameters, in their order.
abbrev pub rows : List (List String × TypeMapping)
rows =
    (
      "TIMESTAMP_WITH_TIME_ZONE" ∷ "TIMESTAMP_TZ" ∷ "TIMESTAMPTZ" ∷ [],
      mapping "TIMESTAMPTZ" "tsu:UTC",
    )
    ∷ ("TIMESTAMP" ∷ "DATETIME" ∷ [], mapping "TIMESTAMP" "tsu:")
    ∷ ("BOOLEAN" ∷ "BOOL" ∷ [], mapping "BOOLEAN" "b")
    ∷ ("NUMERIC" ∷ [], mapping "DECIMAL(38,18)" "d:38,18")
    ∷ ("INTEGER" ∷ "INT" ∷ [], mapping "INTEGER" "i")
    ∷ ("BIGINT" ∷ "LONG" ∷ [], mapping "BIGINT" "l")
    ∷ ("DOUBLE" ∷ "NUMBER" ∷ [], mapping "DOUBLE" "g")
    ∷ ("DATE" ∷ [], mapping "DATE" "tdD")
    ∷ ("VARCHAR" ∷ "TEXT" ∷ "STRING" ∷ [], mapping "VARCHAR" "u")
    ∷ []

pub named : List (List String × TypeMapping) → Bytes → TypeMapping
named [] name = unknown
named ((names, m) ∷ more) name =
    let rest = named more name in if is_one_of names name then m else rest

-- The name in capital letters, by what the regular expression makes of it.
abbrev pub choose : Bytes → Option (Bytes × Bytes) → TypeMapping
choose name none = named rows name
choose name (some (precision, scale)) = decimal name precision scale

pub of_normalized : Bytes → TypeMapping
unfolding decimal_groups decimal named
of_normalized name = choose name (decimal_groups name)

unfoldable pub map_data360_type : Bytes → TypeMapping
unfolding of_normalized to_upper
map_data360_type data360_type = of_normalized (map to_upper data360_type)
