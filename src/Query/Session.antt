-- ===== src/Query/Session.antt =====
-- src/query_api.cpp: the member functions of Session.
use duckdb_data.Query.Types.{
  HttpRequest, HttpResponse, ResultChunk, QueryState, complete, QueryResponse, QueryMode,
  numbered_v3, direct_legacy, Session, QueryError, reauth_required, query_cancelled,
  query_timed_out, transport_failed, cumulative_limit, decoding_failed, invalid_query_id,
  identity_changed, chunk_retrieval_failed, schema_changed, too_many_chunks, chunk_row_mismatch,
  materialization_limit, invalid_row_width, row_count_mismatch, chunk_count_mismatch,
  chain_incomplete, Decoded, decoded, needs_reauth, decode_error, Environment, Run, add64, sub64, M,
  pure, throw, ◌>>=◌, ◌>>◌, throw_if, when, get, modify, Cell,
}
use duckdb_data.Query.Checks.{
  trim_trailing_slash, is_safe_query_id, is_safe_chunk_path, query_id_from_chunk_path,
  same_metadata,
}
use duckdb_data.Base.{
  ℕ, suc, ◌-◌, ◌*◌, min, Bool, true, false, not, ◌&&◌, ◌||◌, Option, none, some, List, [], ◌∷◌,
  ◌++◌, ltb, leb, ◌==◌, if◌then◌else◌, length, Bytes, codes, bytes_eq, is_empty, Result, ok, err,
}

-- The URL of the query, which all that follows the submission is asked of.
abbrev pub query_url : Session → Bytes
query_url s = trim_trailing_slash s.instance_url ++ (codes "/api/v3/query/" ++ s.query_id)

abbrev pub cancellation : Session → HttpRequest
cancellation s = record s.request {
  method = codes "DELETE";
  url = query_url s;
  body = [];
  accept = codes "application/json";
  timeout_ms = s.options.cleanup_timeout_ms;
  max_response_bytes = 64 * 1024;
  cleanup_request = true;
}

-- Cancel. What the transport answers, or throws, is dropped.
unfoldable pub cancel : Run → Run
cancel w =
    if w.session.terminal || w.session.reconciled || not (is_safe_query_id w.session.query_id)
    then w
    else record w {
      session = record w.session { terminal = true };
      turn = suc w.turn;
      sent = cancellation w.session ∷ w.sent;
    }

-- try { … } catch (...) { session.Cancel(); throw; }
abbrev pub cancel_on_error : {A : Type 0} → Result QueryError A × Run → Result QueryError A × Run
cancel_on_error (ok a, w) = (ok a, w)
cancel_on_error (err e, w) = (err e, cancel w)

abbrev pub try_or_cancel : {A : Type 0} → M A → M A
try_or_cancel body w = cancel_on_error (body w)

-- What is left of a budget: `limit - std::min(used, limit)`.
abbrev pub left_of : ℕ → ℕ → ℕ
left_of limit used = limit - min used limit

-- SameMetadata against metadata that may be missing.
abbrev pub schema_differs : Session → QueryResponse → Bool
schema_differs s response = elim response.metadata [
  | [] ↦ false
  | c ∷ cs ↦ not (same_metadata s.metadata (c ∷ cs))
]

abbrev pub is_complete : QueryState → Bool
is_complete complete = true
is_complete _ = false

abbrev pub is_numbered : QueryMode → Bool
is_numbered numbered_v3 = true
is_numbered direct_legacy = false

-- RememberQueryId, in its two halves.
unfoldable pub remember_id : Bytes → M (Unit {0})
remember_id id = do
  s ← get
  when (not (is_empty id)) (
      throw_if (not (is_safe_query_id id)) invalid_query_id
      >> (throw_if (not (is_empty s.query_id) && not (bytes_eq id s.query_id)) identity_changed
          >> modify (λ x. record x { query_id = id })))

unfoldable pub remember_next : Bytes → M (Unit {0})
remember_next next_url = do
  s ← get
  let next_id = query_id_from_chunk_path next_url
  when (is_safe_chunk_path next_url) (
      throw_if (not (is_empty s.query_id) && not (bytes_eq next_id s.query_id)) identity_changed
      >> modify (λ x. record x { query_id = if is_empty x.query_id then next_id else x.query_id }))

unfoldable pub remember_query_id : QueryResponse → M (Unit {0})
unfolding remember_id remember_next
remember_query_id response = do remember_id response.query_id; remember_next response.chunk.next_url

-- The loop over the rows, which adds to `cells` before a later row may throw.
unfoldable pub accept_rows : List (List Cell) → M (Unit {0})
accept_rows [] = pure tt
accept_rows (row ∷ rows) = do
  s ← get
  throw_if (not (length row == length s.metadata)) invalid_row_width
  throw_if (ltb (left_of s.options.max_cells s.cells) (length row)) materialization_limit
  modify λ x. record x { cells = add64 x.cells (length row) }
  accept_rows rows

-- Accept before its loop.
unfoldable pub check_chunk : QueryResponse → M (Unit {0})
check_chunk response = do
  s ← get
  throw_if (not (is_complete response.state)) chunk_retrieval_failed
  throw_if (schema_differs s response) schema_changed
  throw_if (leb s.options.max_chunks s.fetched_chunks) too_many_chunks
  let chunk_rows = length response.chunk.rows
  throw_if (response.has_returned_rows && not (response.returned_rows == chunk_rows))
      chunk_row_mismatch
  throw_if (ltb (left_of s.options.max_rows s.rows) chunk_rows) materialization_limit

-- Accept behind its loop.
unfoldable pub count_chunk : ResultChunk → M ResultChunk
count_chunk chunk = do
  s ← get
  let chunk_rows = length chunk.rows
  throw_if (s.has_expected_rows && ltb (left_of s.expected_rows s.rows) chunk_rows)
      row_count_mismatch
  modify λ x. record x { rows = add64 x.rows chunk_rows; fetched_chunks = add64 x.fetched_chunks 1 }
  pure chunk

-- Accept, which gives the chunk.
unfoldable pub accept : QueryResponse → M ResultChunk
unfolding check_chunk accept_rows count_chunk
accept response =
    check_chunk response >> (accept_rows response.chunk.rows >> count_chunk response.chunk)

-- Finish. The `false` that it returns is left to the callers.
unfoldable pub finish : M (Unit {0})
finish = do
  s ← get
  throw_if
      (is_numbered s.mode && s.has_expected_chunks && not (s.fetched_chunks == s.expected_chunks))
      chunk_count_mismatch
  throw_if (s.has_expected_rows && not (s.rows == s.expected_rows)) row_count_mismatch
  throw_if (not (is_numbered s.mode) && not (is_empty s.next_url)) chain_incomplete
  modify λ x. record x { reconciled = true; terminal = true }

module _ (env : Environment) where
  abbrev pub ask_cancelled : M Bool
  ask_cancelled w = (ok (env.is_cancelled w.turn), record w { turn = suc w.turn })

  abbrev pub ask_now : M ℕ
  ask_now w = (ok (env.now_ms w.turn w.slept_ms), record w { turn = suc w.turn })

  unfoldable pub check_active : M (Unit {0})
  check_active = do
    stop ← ask_cancelled
    throw_if stop query_cancelled
    now ← ask_now
    s ← get
    throw_if (leb s.options.overall_timeout_ms (sub64 now s.started_at_ms)) query_timed_out

  -- transport->Send of the session's request.
  abbrev pub transmit : M (Option HttpResponse)
  transmit w = (
    ok (env.respond w.turn w.session.request),
    record w { turn = suc w.turn; sent = w.session.request ∷ w.sent },
  )

  -- The handler of an exception of the transport.
  unfoldable pub transport_fault : M HttpResponse
  transport_fault = do
    stop ← ask_cancelled
    throw_if stop query_cancelled
    now ← ask_now
    s ← get
    throw_if (leb s.options.overall_timeout_ms (sub64 now s.started_at_ms)) query_timed_out
    throw transport_failed

  -- What becomes of the transport's answer.
  unfoldable pub receive : ℕ → Option HttpResponse → M HttpResponse
  unfolding transport_fault
  receive remaining none = transport_fault
  receive remaining (some response) = do
    throw_if (ltb remaining (length response.body)) cumulative_limit
    modify
        λ x. record x { total_response_bytes = add64 x.total_response_bytes (length response.body) }
    pure response

  -- The limits that the session puts on a request.
  abbrev pub limited : ℕ → Session → HttpRequest
  limited now s = record s.request {
    timeout_ms =
        min s.options.request_timeout_ms
          (sub64 s.options.overall_timeout_ms (sub64 now s.started_at_ms));
    max_response_bytes =
        min s.request.max_response_bytes
          (left_of s.options.max_total_response_bytes s.total_response_bytes);
  }

  -- Send behind its CheckActive.
  unfoldable pub send_active : M HttpResponse
  unfolding receive
  send_active = do
    now ← ask_now
    s ← get
    modify λ x. record x { request = limited now x }
    answer ← transmit
    receive (left_of s.options.max_total_response_bytes s.total_response_bytes) answer

  unfoldable pub send : M HttpResponse
  unfolding check_active send_active
  send = check_active >> send_active

  unfoldable pub decode_fault : M QueryResponse
  decode_fault = do stop ← ask_cancelled; throw_if stop query_cancelled; throw decoding_failed

  unfoldable pub decode_answer : Decoded → M QueryResponse
  unfolding decode_fault
  decode_answer (decoded response) = pure response
  decode_answer needs_reauth = throw reauth_required
  decode_answer decode_error = decode_fault

  unfoldable pub decode : HttpResponse → M QueryResponse
  unfolding decode_answer
  decode response w = decode_answer (env.decode w.turn response) (record w { turn = suc w.turn })
