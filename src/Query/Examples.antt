-- ===== src/Query/Examples.antt =====
-- The theorems on a query's session, applied.
use duckdb_data.Query.Client.{prepare}
use duckdb_data.Query.Checks.{is_trusted_tenant_url}
use duckdb_data.Query.Sound.{IsSound}
use duckdb_data.Query.Sound.Calls.{
  CursorCall, reads_chunk, reads_arrow_chunk, reports_rows, destroys, calls_after,
  calls_after-prepare-IsSound,
}
use duckdb_data.Query.Types.{
  decoded, complete, QueryOptions, numbered_v3, query_cancelled, needs_reauth, Environment, Run,
  Session, Cell,
}
use duckdb_data.Query.Checks.{is_safe_query_id, same_metadata}
use duckdb_data.Query.Session.{send, cancel, accept_rows, finish}
use duckdb_data.Query.Cursor.{next_chunk, next_arrow_chunk}
use duckdb_data.Query.Client.{new_session, drain}
use duckdb_data.Query.Reading.{drain_enough}
use duckdb_data.Query.Schema.{metadata_compatible, same_metadata_iff}
use duckdb_data.Query.Stop.{SendsDelete, cancel_once, failed_next_chunk_is_final}
use duckdb_data.Query.Counts.{
  IsComplete, finish_iff, cells_of, AllWide, accept_rows_iff, accept_rows_bounded,
}
use duckdb_data.Base.{
  ◌+◌, ◌≤◌, ◌≡◌, refl, ◌↔◌, ◌⊎◌, true, false, none, some, List, [], ◌∷◌, arith, codes, ok, err,
}

abbrev options : QueryOptions
options = record {
  request_timeout_ms = 1000;
  overall_timeout_ms = 5000;
  poll_interval_ms = 10;
  max_chunks = 4;
  cleanup_timeout_ms = 100;
  max_rows = 10;
  max_columns = 4;
  max_cells = 3;
  max_total_response_bytes = 4096;
}

-- The user cancels at once, and no request would be answered.
abbrev stopping : Environment
stopping = record {
  is_cancelled = λ turn. true;
  now_ms = λ turn slept. slept;
  respond = λ turn request. none;
  decode = λ turn response. needs_reauth;
}

abbrev reading : Session
reading =
    record (new_session options (codes "SELECT 1") (codes "https://t") (codes "token") false) {
      mode = numbered_v3;
      query_id = codes "q1";
      has_expected_chunks = true;
      expected_chunks = 1;
      metadata =
          record {
            name = codes "a";
            column_type = codes "varchar";
            nullable = true;
            has_precision = false;
            has_scale = false;
            precision = 0;
            scale = 0;
          }
          ∷ [];
    }

abbrev run : Run
run = record { session = reading; turn = 0; slept_ms = 0; sent = [] }

failed_next_chunk_is_final_example :
    let w' = (next_chunk stopping run).1 in
    (cancel w' ≡ w') × ((next_chunk stopping w').1 ≡ w') × ((next_arrow_chunk stopping w').1 ≡ w')
unfolding next_chunk is_safe_query_id send cancel
failed_next_chunk_is_final_example =
    failed_next_chunk_is_final stopping stopping run query_cancelled refl refl refl

cancel_once_example : SendsDelete run (cancel run) × (cancel (cancel run) ≡ cancel run)
cancel_once_example = cancel_once run

finish_iff_example :
    (((finish run).0 ≡ ok tt) ↔ IsComplete numbered_v3 reading)
    × ((finish run).1.session ≡ elim (finish run).0 [
      | ok t ↦ record reading { reconciled = true; terminal = true }
      | err e ↦ reading
    ])
finish_iff_example = finish_iff run

abbrev four_rows : List (List Cell)
four_rows = (none ∷ []) ∷ (none ∷ []) ∷ (none ∷ []) ∷ (none ∷ []) ∷ []

accept_rows_iff_example :
    ((accept_rows four_rows run).0 ≡ ok tt) ↔ (AllWide 1 four_rows × (cells_of four_rows ≤ 3))
accept_rows_iff_example = accept_rows_iff four_rows run (omega arith) (omega arith)

accept_rows_bounded_example :
    let w' = (accept_rows four_rows run).1 in
    (w'.session.cells ≤ 3)
    × (w' ≡ record run { session = record reading { cells = w'.session.cells } })
accept_rows_bounded_example = accept_rows_bounded four_rows run (omega arith) (omega arith)

drain_enough_example : drain stopping (5 + 7) run ≡ drain stopping 5 run
drain_enough_example = drain_enough stopping 5 7 run (omega arith) (omega arith) (omega arith)

same_metadata_iff_example :
    ((same_metadata reading.metadata [] ≡ true) ↔ (reading.metadata ≡ []))
    × ((metadata_compatible reading.metadata [] ≡ true) ↔ (reading.metadata ≡ []))
same_metadata_iff_example = same_metadata_iff reading.metadata []

-- A tenant that answers each request with one row, and a chunk to follow.
abbrev answering : Environment
answering = record {
  is_cancelled = λ turn. false;
  now_ms = λ turn slept. slept;
  respond = λ turn q. some (record { status = 200; body = codes "{}" });
  decode = λ turn r. decoded (record {
    state = complete;
    query_id = codes "q1";
    chunk_count = 0;
    row_count = 0;
    has_chunk_count = false;
    has_row_count = false;
    returned_rows = 0;
    has_returned_rows = false;
    metadata = reading.metadata;
    chunk = record { rows = (none ∷ []) ∷ []; next_url = codes "/api/v3/query/q1/chunks/1" };
  });
}

abbrev cursor_calls : List CursorCall
cursor_calls = reads_chunk ∷ reads_chunk ∷ reads_arrow_chunk ∷ reports_rows 3 ∷ destroys ∷ []

calls_after-prepare-IsSound_example :
    let w = calls_after answering cursor_calls (
      prepare answering reading.options
        (codes "SELECT 1")
        (codes "https://t.c360a.salesforce.com")
        (codes "token")
        false) in
    ((is_trusted_tenant_url (codes "https://t.c360a.salesforce.com") ≡ true) ⊎ (w.sent ≡ []))
    × IsSound (codes "https://t.c360a.salesforce.com") (codes "Bearer token") reading.options w
calls_after-prepare-IsSound_example =
    calls_after-prepare-IsSound answering reading.options (codes "SELECT 1")
      (codes "https://t.c360a.salesforce.com") (codes "token") false cursor_calls
      (omega arith, omega arith, omega arith)
