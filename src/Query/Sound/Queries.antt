-- ===== src/Query/Sound/Queries.antt =====
-- The calls of QueryApiV3Client keep `IsSound`.
use duckdb_data.Query.Types.{QueryResponse, QueryOptions, Session, Environment, Run}
use duckdb_data.Query.Session.{query_url, remember_query_id, check_active, send}
use duckdb_data.Query.Cursor.{get_request}
use duckdb_data.Query.Client.{
  ask_status, take_metadata, check_columns, settle, describe, adopt_counts, conclude, exchange,
  poll_once, poll, adopt_direct, adopt_numbered, adopt, submit, prepare_internal,
}
use duckdb_data.Query.Sound.{Fits, IsSound, Keeps, patched-IsSound, then-Keeps}
use duckdb_data.Query.Sound.Steps.{
  query_url-endpoint, query_url-starts_with, try_or_cancel-Keeps, check_active-Keeps, send-Keeps,
  decode-Keeps, remember_query_id-Keeps,
}
use duckdb_data.Query.Sound.Chunks.{get_request-AreConfined, AreConfined-instance_url}
use duckdb_data.Base.{ℕ, zero, suc, ◌+◌, ◌++◌, arith, Bytes, codes}

module _ (u token : Bytes) (o : QueryOptions) (fits : Fits o) (env : Environment) where
  exchange-Keeps : Keeps (IsSound u token o) (exchange env)
  exchange-Keeps w h =
      then-Keeps (IsSound u token o) (send env w) _ (send-Keeps u token o fits env w h)
        (decode-Keeps u token o env)

  -- What is asked next, below the query's URL.
  abbrev below : Bytes → Session → Session
  below rest s = record s { request = get_request (query_url s ++ rest) s.request }

  below-Keeps :
      (rest : Bytes) (w : Run)
      → IsSound u token o w
      → IsSound u token o (record w { session = below rest w.session })
  below-Keeps rest w h =
      let s = w.session in
      let e = AreConfined-instance_url u token o s.instance_url s.request w.sent h.0 in
      (
        get_request-AreConfined u token o (query_url s ++ rest) s.instance_url s.request.accept
            s.request w.sent (query_url-starts_with u s rest e) h.0,
        h.1,
      )

  settle-Keeps : Keeps (IsSound u token o) (settle env)
  unfolding settle
  settle-Keeps w h =
      then-Keeps (IsSound u token o) (exchange env w) _ (exchange-Keeps w h) (λ r v p.
        then-Keeps (IsSound u token o) (remember_query_id r v) _
          (remember_query_id-Keeps u token o r v p)
          (λ a x q.
            then-Keeps (IsSound u token o) (check_active env x) _
              (check_active-Keeps u token o env x q) (λ b y s. s)))

  ask_status-Keeps : Keeps (IsSound u token o) (ask_status env)
  unfolding ask_status
  ask_status-Keeps w h =
      let s = w.session in
      let e = AreConfined-instance_url u token o s.instance_url s.request w.sent h.0 in
      settle-Keeps
        (record w { session = record s { request = get_request (query_url s) s.request } })
        (
          get_request-AreConfined u token o (query_url s) s.instance_url s.request.accept s.request
              w.sent (query_url-endpoint u s e) h.0,
          h.1,
        )

  poll_once-Keeps : Keeps (IsSound u token o) (poll_once env)
  unfolding poll_once
  poll_once-Keeps w h =
      let slept : Run = record w {
        turn = suc w.turn;
        slept_ms = w.slept_ms + w.session.options.poll_interval_ms;
      } in
      let rest =
        then-Keeps (IsSound u token o) (check_active env slept) (λ _. ask_status env)
          (check_active-Keeps u token o env slept h) (λ a. ask_status-Keeps) in
      ground (arith, h, rest)

  poll-Keeps : (n : ℕ) (r : QueryResponse) → Keeps (IsSound u token o) (poll env n r)
  unfolding poll
  poll-Keeps zero r w h = ground (arith, h)
  poll-Keeps (suc n) r w h =
      let again =
        then-Keeps (IsSound u token o) (poll_once env w) (λ next. poll env n next)
          (poll_once-Keeps w h) (λ next. poll-Keeps n next) in
      ground (arith, h, again)

  adopt_direct-Keeps : (r : QueryResponse) → Keeps (IsSound u token o) (adopt_direct r)
  unfolding adopt_direct
  adopt_direct-Keeps r w h = h

  adopt_counts-Keeps : (r : QueryResponse) → Keeps (IsSound u token o) (adopt_counts r)
  unfolding adopt_counts
  adopt_counts-Keeps r w h = patched-IsSound u token o w (adopt_counts r w).1 (ground arith) h

  take_metadata-Keeps : (r : QueryResponse) → Keeps (IsSound u token o) (take_metadata r)
  unfolding take_metadata
  take_metadata-Keeps r w h = patched-IsSound u token o w (take_metadata r w).1 (ground arith) h

  describe-Keeps : Keeps (IsSound u token o) (describe env)
  unfolding describe
  describe-Keeps w h =
      then-Keeps (IsSound u token o)
        (exchange env (record w { session = below (codes "/metadata") w.session })) take_metadata
        (exchange-Keeps (record w { session = below (codes "/metadata") w.session })
          (below-Keeps (codes "/metadata") w h))
        take_metadata-Keeps

  adopt_numbered-Keeps : (r : QueryResponse) → Keeps (IsSound u token o) (adopt_numbered env r)
  unfolding adopt_numbered
  adopt_numbered-Keeps r w h =
      then-Keeps (IsSound u token o) (adopt_counts r w) (λ _. describe env)
        (adopt_counts-Keeps r w h) (λ a. describe-Keeps)

  adopt-Keeps : (r : QueryResponse) → Keeps (IsSound u token o) (adopt env r)
  unfolding adopt
  adopt-Keeps r w h =
      let numbered = adopt_numbered-Keeps r w h in
      let direct = adopt_direct-Keeps r w h in ground (arith, numbered, direct)

  check_columns-Keeps : Keeps (IsSound u token o) check_columns
  unfolding check_columns
  check_columns-Keeps w h = patched-IsSound u token o w (check_columns w).1 (ground arith) h

  conclude-Keeps : (r : QueryResponse) → Keeps (IsSound u token o) (conclude env r)
  unfolding conclude
  conclude-Keeps r w h =
      let rest =
        then-Keeps (IsSound u token o) (adopt env r w) (λ _. check_columns) (adopt-Keeps r w h)
          (λ a v p. check_columns-Keeps v p) in
      ground (arith, h, rest)

  pub submit-Keeps : (n : ℕ) → Keeps (IsSound u token o) (submit env n)
  unfolding submit
  submit-Keeps n w h =
      then-Keeps (IsSound u token o) (settle env w) _ (settle-Keeps w h) (λ first v p.
        then-Keeps (IsSound u token o) (poll env n first v) (conclude env) (poll-Keeps n first v p)
          conclude-Keeps)

  pub prepare_internal-Keeps :
      (n : ℕ) (sql url secret : Bytes)
      → Keeps (IsSound u token o) (prepare_internal env n sql url secret)
  unfolding prepare_internal
  prepare_internal-Keeps n sql url secret w h =
      let started : Run = record w {
        turn = suc (suc w.turn);
        session = record w.session { started_at_ms = env.now_ms (suc w.turn) w.slept_ms };
      } in
      let rest = try_or_cancel-Keeps u token o (submit env n) (submit-Keeps n) started h in
      ground (arith, h, rest)
