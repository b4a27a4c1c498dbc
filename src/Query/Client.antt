-- ===== src/Query/Client.antt =====
-- src/query_api.cpp: QueryApiV3Client. The session's destructor, which calls Cancel, is written out
-- where a session ends. A loop takes the number of its rounds, and `out_of_rounds` where they end.
use duckdb_data.Query.Types.{
  ColumnMetadata, ResultChunk, QueryState, running, QueryResponse, QueryOptions, numbered_v3,
  direct_legacy, Session, QueryError, query_cancelled, empty_sql, incomplete_credentials,
  untrusted_url, invalid_async_response, not_complete, invalid_completed_response, too_many_chunks,
  materialization_limit, metadata_failed, numeric_incomplete, too_many_columns, out_of_rounds,
  Environment, Run, M, pure, bind_result, ◌>>=◌, ◌>>◌, throw_if, get, modify,
}
use duckdb_data.Query.Checks.{
  trim_trailing_slash, is_trusted_tenant_url, is_safe_query_id, json_escape,
}
use duckdb_data.Query.Session.{
  query_url, cancel, try_or_cancel, is_complete, remember_query_id, ask_cancelled, ask_now,
  check_active, send, decode,
}
use duckdb_data.Query.Cursor.{get_request, next_chunk}
use duckdb_data.Base.{
  ℕ, zero, suc, ◌+◌, ◌*◌, ◌/◌, Bool, true, false, not, ◌&&◌, ◌||◌, Option, none, some, List, [],
  ◌∷◌, ◌++◌, map, ltb, ◌==◌, if◌then◌else◌, length, Bytes, codes, bytes_eq, is_empty, to_lower,
  to_string, Result, ok, err,
}

-- The constructor's test.
unfoldable pub are_valid_options : QueryOptions → Bool
are_valid_options o = not (
    o.request_timeout_ms == 0
    || o.overall_timeout_ms == 0
    || o.poll_interval_ms == 0
    || o.max_chunks == 0
    || o.cleanup_timeout_ms == 0
    || ltb 1000 o.cleanup_timeout_ms
    || o.max_rows == 0
    || ltb 100000 o.max_rows
    || o.max_columns == 0
    || o.max_cells == 0
    || o.max_total_response_bytes == 0
    || ltb o.overall_timeout_ms o.poll_interval_ms)

abbrev pub is_running : QueryState → Bool
is_running running = true
is_running _ = false

-- The body of the POST.
unfoldable pub submission : Bytes → ℕ → Bytes
unfolding json_escape to_string
submission sql row_limit =
    codes "{\"sql\":\""
    ++ (json_escape sql
        ++ (codes "\",\"transferMode\":\"ASYNC\",\"settings\":{\"timezone\":\"Etc/UTC\","
            ++ (codes "\"language\":\"en_US\"},\"queryRowLimit\":"
                ++ (to_string row_limit ++ codes "}"))))

abbrev pub new_session : QueryOptions → Bytes → Bytes → Bytes → Bool → Session
new_session o sql url token metadata_only = record {
  options = o;
  instance_url = url;
  request = record {
    method = codes "POST";
    url = trim_trailing_slash url ++ codes "/api/v3/query";
    authorization = codes "Bearer " ++ token;
    content_type = codes "application/json";
    accept = codes "application/json";
    body = submission sql (if metadata_only then 1 else o.max_rows);
    timeout_ms = o.request_timeout_ms;
    follow_redirects = false;
    max_response_bytes = 64 * 1024 * 1024;
    cleanup_request = false;
  };
  started_at_ms = 0;
  total_response_bytes = 0;
  mode = direct_legacy;
  metadata = [];
  query_id = [];
  has_expected_chunks = false;
  expected_chunks = 0;
  has_expected_rows = false;
  expected_rows = 0;
  next_chunk_index = 0;
  buffered_direct = none;
  next_url = [];
  visited_urls = [];
  fetched_chunks = 0;
  rows = 0;
  cells = 0;
  reconciled = false;
  terminal = false;
  arrow_response_outstanding = false;
}

-- "numeric" in any case of letters, without its precision or its scale.
unfoldable pub lacks_digits : ColumnMetadata → Bool
unfolding to_lower
lacks_digits c =
    bytes_eq (map to_lower c.column_type) (codes "numeric")
    && (not c.has_precision || not c.has_scale)

unfoldable pub any_lacks_digits : List ColumnMetadata → Bool
unfolding lacks_digits
any_lacks_digits [] = false
any_lacks_digits (c ∷ cs) = lacks_digits c || any_lacks_digits cs

abbrev pub is_nil : List ColumnMetadata → Bool
is_nil [] = true
is_nil (c ∷ cs) = false

-- The branch without chunk counts.
unfoldable pub adopt_direct : QueryResponse → M (Unit {0})
adopt_direct response = modify λ x. record x {
  mode = direct_legacy;
  metadata = response.metadata;
  has_expected_rows = response.has_row_count;
  expected_rows = response.row_count;
  buffered_direct = some response;
}

-- What a query with chunk counts expects.
unfoldable pub adopt_counts : QueryResponse → M (Unit {0})
adopt_counts response = do
  s ← get
  throw_if (not (is_safe_query_id s.query_id)) invalid_completed_response
  modify λ x. record x {
    mode = numbered_v3;
    has_expected_chunks = true;
    expected_chunks = response.chunk_count;
    has_expected_rows = response.has_row_count;
    expected_rows = response.row_count;
  }
  throw_if (ltb s.options.max_chunks response.chunk_count) too_many_chunks
  throw_if (response.has_row_count && ltb s.options.max_rows response.row_count)
      materialization_limit

-- The metadata that the tenant describes a query with.
unfoldable pub take_metadata : QueryResponse → M (Unit {0})
take_metadata described = do
  throw_if (not (is_complete described.state) || is_nil described.metadata) metadata_failed
  modify λ x. record x { metadata = described.metadata }
  throw_if (any_lacks_digits described.metadata) numeric_incomplete

unfoldable pub check_columns : M (Unit {0})
check_columns = do
  s ← get
  throw_if (ltb s.options.max_columns (length s.metadata)) too_many_columns

-- The condition and the body of the loop over the chunks.
abbrev pub collect : M (List ResultChunk) → Option ResultChunk → M (List ResultChunk)
collect more none = pure []
collect more (some chunk) = more >>= λ chunks. pure (chunk ∷ chunks)

module _ (env : Environment) where
  abbrev pub sleep : ℕ → M (Unit {0})
  sleep ms w = (ok tt, record w { turn = suc w.turn; slept_ms = w.slept_ms + ms })

  -- One request, decoded.
  abbrev pub exchange : M QueryResponse
  exchange = send env >>= decode env

  -- One request, its identifier kept, and the session still active.
  unfoldable pub settle : M QueryResponse
  settle = do response ← exchange; remember_query_id response; check_active env; pure response

  unfoldable pub ask_status : M QueryResponse
  unfolding settle
  ask_status w = settle (record w {
    session = record w.session { request = get_request (query_url w.session) w.session.request };
  })

  -- The body of the polling loop.
  unfoldable pub poll_once : M QueryResponse
  unfolding ask_status
  poll_once = do
    s ← get
    throw_if (not (is_safe_query_id s.query_id)) invalid_async_response
    sleep s.options.poll_interval_ms
    check_active env
    ask_status

  unfoldable pub poll : ℕ → QueryResponse → M QueryResponse
  unfolding poll_once
  poll zero response w =
      if is_running response.state then (err out_of_rounds, w) else (ok response, w)
  poll (suc rounds) response w =
      let again = bind_result (poll_once w) (λ next. poll rounds next) in
      if is_running response.state then again else (ok response, w)

  -- The metadata of a query with chunk counts.
  unfoldable pub describe : M (Unit {0})
  unfolding take_metadata
  describe = do
    modify λ x. record x { request = get_request (query_url x ++ codes "/metadata") x.request }
    described ← exchange
    take_metadata described

  -- The branch with chunk counts.
  unfoldable pub adopt_numbered : QueryResponse → M (Unit {0})
  unfolding adopt_counts describe
  adopt_numbered response = adopt_counts response >> describe

  unfoldable pub adopt : QueryResponse → M (Unit {0})
  unfolding adopt_direct adopt_numbered
  adopt response =
      if response.has_chunk_count || ltb 0 response.chunk_count
      then adopt_numbered response
      else adopt_direct response

  -- The end of the `try` block: the answer is complete, and its columns are few enough.
  unfoldable pub conclude : QueryResponse → M (Unit {0})
  unfolding adopt check_columns
  conclude last = do throw_if (not (is_complete last.state)) not_complete; adopt last; check_columns

  -- The `try` block of PrepareInternal.
  unfoldable pub submit : ℕ → M (Unit {0})
  unfolding settle poll conclude
  submit rounds = do first ← settle; last ← poll rounds first; conclude last

  -- PrepareInternal. An exception in the `try` block is followed by Cancel.
  unfoldable pub prepare_internal : ℕ → Bytes → Bytes → Bytes → M (Unit {0})
  unfolding submit
  prepare_internal rounds sql url token = do
    stop ← ask_cancelled env
    throw_if stop query_cancelled
    throw_if (is_empty sql) empty_sql
    throw_if (is_empty url || is_empty token) incomplete_credentials
    throw_if (not (is_trusted_tenant_url url)) untrusted_url
    now ← ask_now env
    modify λ x. record x { started_at_ms = now }
    try_or_cancel (submit rounds)

  abbrev pub fresh_run : QueryOptions → Bytes → Bytes → Bytes → Bool → Run
  fresh_run o sql url token metadata_only = record {
    session = new_session o sql url token metadata_only;
    turn = 0;
    slept_ms = 0;
    sent = [];
  }

  abbrev pub poll_rounds : QueryOptions → ℕ
  poll_rounds o = o.overall_timeout_ms / o.poll_interval_ms + 1

  unfoldable pub prepare :
      QueryOptions → Bytes → Bytes → Bytes → Bool → Result QueryError (Unit {0}) × Run
  unfolding prepare_internal
  prepare o sql url token metadata_only =
      prepare_internal (poll_rounds o) sql url token (fresh_run o sql url token metadata_only)

  -- `while (cursor.NextChunk(chunk)) result.chunks.push_back(chunk);`
  unfoldable pub drain : ℕ → M (List ResultChunk)
  unfolding next_chunk
  drain zero w = (err out_of_rounds, w)
  drain (suc rounds) w = bind_result (next_chunk env w) (collect (drain rounds))

  -- The end of the handle that owns the session.
  abbrev pub destroy : {A : Type 0} → Result QueryError A × Run → Result QueryError A × Run
  destroy (result, w) = (result, cancel w)

  unfoldable pub execute :
      QueryOptions → Bytes → Bytes → Bytes → Result QueryError (List ResultChunk) × Run
  unfolding prepare drain
  execute o sql url token =
      destroy (bind_result (prepare o sql url token false) λ _. drain (o.max_chunks + 2))

  unfoldable pub execute_metadata :
      QueryOptions → Bytes → Bytes → Bytes → Result QueryError (List ColumnMetadata) × Run
  unfolding prepare
  execute_metadata o sql url token =
      destroy (bind_result (prepare o sql url token true) λ _. get >>= λ s. pure s.metadata)
