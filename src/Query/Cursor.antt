-- ===== src/Query/Cursor.antt =====
-- src/query_api.cpp: QueryCursor. A handle that was moved from is `none`. `NextChunk` gives
-- `some chunk` for `true` and `none` for `false`, and `NextArrowChunk` likewise.
use duckdb_data.Query.Types.{
  HttpRequest, HttpResponse, ResultChunk, QueryResponse, Session, QueryError, not_reported,
  cursor_terminal, not_numbered, not_expected, unsafe_chunk_url, materialization_limit,
  row_count_mismatch, chunk_retrieval_failed, reauth_required, Environment, Run, Decoded,
  needs_reauth, add64, mul64, M, pure, throw, ◌>>=◌, ◌>>◌, throw_if, get, modify,
}
use duckdb_data.Query.Checks.{trim_trailing_slash, is_safe_chunk_path, query_id_from_chunk_path}
use duckdb_data.Query.Session.{
  query_url, try_or_cancel, left_of, is_numbered, remember_query_id, accept, finish, check_active,
  send, decode,
}
use duckdb_data.Base.{
  ℕ, suc, ◌/◌, Bool, true, false, not, ◌&&◌, ◌||◌, Option, none, some, List, [], ◌∷◌, ◌++◌, ltb,
  leb, ◌==◌, if◌then◌else◌, length, Bytes, codes, bytes_eq, is_empty, to_string, Result, err,
}

abbrev pub chunk_url : Session → Bytes
chunk_url s = query_url s ++ (codes "/chunks/" ++ to_string s.next_chunk_index)

abbrev pub get_request : Bytes → HttpRequest → HttpRequest
get_request url q = record q { method = codes "GET"; body = []; url = url }

-- visited_urls.insert(url).second.
abbrev pub is_visited : Bytes → List Bytes → Bool
is_visited url [] = false
is_visited url (u ∷ us) = bytes_eq u url || is_visited url us

-- The request for the next numbered chunk: the index moves on before it is sent.
abbrev pub ask_numbered : Run → Run
ask_numbered w =
    let s = w.session in
    record w {
      session = record s {
        request = get_request (chunk_url s) s.request;
        next_chunk_index = add64 s.next_chunk_index 1;
      };
    }

-- The request for the chunk at `next_url`, which is then visited.
abbrev pub ask_followed : Run → Run
ask_followed w =
    let s = w.session in
    record w {
      session = record s {
        visited_urls = s.next_url ∷ s.visited_urls;
        query_id = if is_empty s.query_id then query_id_from_chunk_path s.next_url else s.query_id;
        request = get_request (trim_trailing_slash s.instance_url ++ s.next_url) s.request;
      };
    }

abbrev pub ask_arrow : Session → Session
ask_arrow s = record s {
  request = record (get_request (chunk_url s) s.request) {
    accept = codes "application/vnd.apache.arrow.stream";
  };
}

module _ (env : Environment) where
  -- What the three ways to get a response share.
  unfoldable pub take_response : QueryResponse → M (Option ResultChunk)
  take_response response = do
    remember_query_id response
    check_active env
    chunk ← accept response
    s ← get
    modify λ x. record x { next_url = if is_numbered x.mode then x.next_url else chunk.next_url }
    pure (some chunk)

  abbrev pub fetch : M (Option ResultChunk)
  fetch = do answer ← send env; response ← decode env answer; take_response response

  unfoldable pub next_numbered : M (Option ResultChunk)
  unfolding take_response
  next_numbered w =
      let done = (finish >> pure none) w in
      let more = fetch (ask_numbered w) in
      if leb w.session.expected_chunks w.session.next_chunk_index then done else more

  unfoldable pub next_followed : M (Option ResultChunk)
  unfolding take_response
  next_followed w =
      let next_url = w.session.next_url in
      let done = (finish >> pure none) w in
      let more = fetch (ask_followed w) in
      if is_empty next_url
      then done
      else if not (is_safe_chunk_path next_url) || is_visited next_url w.session.visited_urls
      then throw unsafe_chunk_url w
      else more

  unfoldable pub next_direct : Option QueryResponse → M (Option ResultChunk)
  unfolding next_followed
  next_direct none w = next_followed w
  next_direct (some response) w =
      take_response response (record w { session = record w.session { buffered_direct = none } })

  unfoldable pub next_chunk_body : M (Option ResultChunk)
  unfolding next_numbered next_direct
  next_chunk_body w =
      if is_numbered w.session.mode
      then next_numbered w
      else next_direct w.session.buffered_direct w

  unfoldable pub next_chunk : M (Option ResultChunk)
  unfolding next_chunk_body
  next_chunk w =
      if w.session.arrow_response_outstanding
      then throw not_reported w
      else if w.session.reconciled
      then pure none w
      else if w.session.terminal
      then throw cursor_terminal w
      else try_or_cancel next_chunk_body w

  -- What the codec says of a response whose status is no success, `ReauthRequired` apart, is
  -- dropped.
  abbrev pub chunk_fault : Decoded → QueryError
  chunk_fault needs_reauth = reauth_required
  chunk_fault _ = chunk_retrieval_failed

  unfoldable pub check_status : HttpResponse → M HttpResponse
  check_status response w =
      let fault : Result QueryError HttpResponse × Run =
        (err (chunk_fault (env.decode w.turn response)), record w { turn = suc w.turn }) in
      let kept =
        (check_active env
            >> (modify (λ x. record x { arrow_response_outstanding = true }) >> pure response))
          w in
      if ltb response.status 200 || leb 300 response.status then fault else kept

  -- The request for the next chunk as Arrow, and its answer.
  unfoldable pub fetch_arrow : M (Option HttpResponse)
  unfolding check_status
  fetch_arrow w =
      (send env >>= λ response. check_status response >>= λ kept. pure (some kept))
        (record w { session = ask_arrow w.session })

  unfoldable pub next_arrow_active : M (Option HttpResponse)
  unfolding fetch_arrow
  next_arrow_active w =
      let done = (finish >> pure none) w in
      let more = fetch_arrow w in
      if leb w.session.expected_chunks w.session.next_chunk_index then done else more

  unfoldable pub next_arrow_body : M (Option HttpResponse)
  unfolding next_arrow_active
  next_arrow_body = check_active env >> next_arrow_active

  unfoldable pub next_arrow_chunk : M (Option HttpResponse)
  unfolding next_arrow_body
  next_arrow_chunk w =
      if not (is_numbered w.session.mode)
      then throw not_numbered w
      else if w.session.arrow_response_outstanding
      then throw not_reported w
      else if w.session.reconciled
      then pure none w
      else if w.session.terminal
      then throw cursor_terminal w
      else try_or_cancel next_arrow_body w

  -- Whether the rows that were decoded go over one of the two limits.
  abbrev pub over_limit : Session → ℕ → Bool
  over_limit s decoded_rows =
      ltb (left_of s.options.max_rows s.rows) decoded_rows
      || (not (length s.metadata == 0)
          && ltb (left_of s.options.max_cells s.cells / length s.metadata) decoded_rows)

  unfoldable pub count_arrow_rows : ℕ → M (Unit {0})
  count_arrow_rows decoded_rows = do
    s ← get
    throw_if (over_limit s decoded_rows) materialization_limit
    throw_if (s.has_expected_rows && ltb (left_of s.expected_rows s.rows) decoded_rows)
        row_count_mismatch
    modify λ x. record x {
      rows = add64 x.rows decoded_rows;
      cells = add64 x.cells (mul64 decoded_rows (length x.metadata));
      fetched_chunks = add64 x.fetched_chunks 1;
      next_chunk_index = add64 x.next_chunk_index 1;
      arrow_response_outstanding = false;
    }

  unfoldable pub report_body : ℕ → M (Unit {0})
  unfolding count_arrow_rows
  report_body decoded_rows = check_active env >> count_arrow_rows decoded_rows

  unfoldable pub report_arrow_chunk : ℕ → M (Unit {0})
  unfolding report_body
  report_arrow_chunk decoded_rows w =
      if not w.session.arrow_response_outstanding
      then throw not_expected w
      else try_or_cancel (report_body decoded_rows) w
