-- ===== src/Faults/Examples.antt =====
-- The theorems on the table of faults, applied.
use duckdb_data.Faults.{user_denied, get_safe_fault}
use duckdb_data.Faults.Table.{get_safe_fault-fault, format_safe_fault-injective}
use duckdb_data.Base.{◌≡◌, refl}

get_safe_fault-fault_example : (get_safe_fault user_denied).fault ≡ user_denied
get_safe_fault-fault_example = get_safe_fault-fault user_denied

format_safe_fault-injective_example : user_denied ≡ user_denied
format_safe_fault-injective_example = format_safe_fault-injective user_denied user_denied refl
