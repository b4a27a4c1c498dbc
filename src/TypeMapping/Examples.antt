-- ===== src/TypeMapping/Examples.antt =====
-- The theorems on the mapping, applied.
use duckdb_data.TypeMapping.{to_upper, map_data360_type}
use duckdb_data.TypeMapping.Stable.{IsStable, map_data360_type-to_upper, map_data360_type-IsStable}
use duckdb_data.Base.{◌≡◌, map, codes}

map_data360_type-to_upper_example :
    map_data360_type (map to_upper (codes "Timestamp_tz")) ≡ map_data360_type (codes "Timestamp_tz")
map_data360_type-to_upper_example = map_data360_type-to_upper (codes "Timestamp_tz")

map_data360_type-IsStable_example : IsStable (map_data360_type (codes "decimal(10,2)"))
map_data360_type-IsStable_example = map_data360_type-IsStable (codes "decimal(10,2)")
