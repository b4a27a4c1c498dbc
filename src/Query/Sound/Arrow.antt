-- ===== src/Query/Sound/Arrow.antt =====
-- The calls of QueryCursor for Arrow chunks keep `IsSound`.
use duckdb_data.Query.Types.{
  HttpResponse, QueryOptions, QueryError, Environment, Run, bind_result, pure, modify, ◌>>◌, add64,
}
use duckdb_data.Query.Session.{left_of, finish, check_active, send}
use duckdb_data.Query.Cursor.{
  ask_arrow, fetch_arrow, next_arrow_active, count_arrow_rows, chunk_url, chunk_fault, check_status,
  next_arrow_body, next_arrow_chunk, report_body, report_arrow_chunk,
}
use duckdb_data.Query.Sound.{Fits, IsSound, Keeps, then-Keeps}
use duckdb_data.Query.Sound.Steps.{
  rows-AreWithin, cells-AreWithin, query_url-starts_with, try_or_cancel-Keeps, check_active-Keeps,
  send-Keeps,
}
use duckdb_data.Query.Sound.Chunks.{
  get_request-AreConfined, AreConfined-instance_url, finish-none-Keeps,
}
use native.Mathlib.Nat.{mul-le-mul_right, div-mul-le_self}
use duckdb_data.Base.{
  ℕ, zero, suc, ◌*◌, ◌/◌, ◌≤◌, ◌≡◌, true, false, not, ◌&&◌, ◌||◌, Option, none, ◌++◌, arith, ltb,
  leb, ◌==◌, if-holds, length, Bytes, codes, to_string, Result, err,
}

-- Rows within what is left of the cells for each column.
product-fits :
    (left columns n : ℕ)
    → not (columns == 0) && ltb (left / columns) n ≡ false
    → ltb left (n * columns) ≡ false
product-fits left zero n h = ground arith
product-fits left (suc c) n h =
    let few : n ≤ left / suc c = ground (arith, h) in
    let most : n * suc c ≤ left / suc c * suc c = mul-le-mul_right (suc c) few in
    ground (arith, most, div-mul-le_self left (suc c))

module _ (u token : Bytes) (o : QueryOptions) (fits : Fits o) (env : Environment) where
  ask_arrow-Keeps :
      (w : Run)
      → IsSound u token o w
      → IsSound u token o (record w { session = ask_arrow w.session })
  ask_arrow-Keeps w h =
      let s = w.session in
      let e = AreConfined-instance_url u token o s.instance_url s.request w.sent h.0 in
      (
        get_request-AreConfined u token o (chunk_url s) s.instance_url
            (codes "application/vnd.apache.arrow.stream") s.request w.sent
            (query_url-starts_with u s (codes "/chunks/" ++ to_string s.next_chunk_index) e) h.0,
        h.1,
      )

  abbrev Holds : (A : Type 0) → Result QueryError A × Run → Type 0
  Holds A x = IsSound u token o x.1

  check_status-Keeps : (r : HttpResponse) → Keeps (IsSound u token o) (check_status env r)
  unfolding check_status
  check_status-Keeps r w h =
      let active = check_active-Keeps u token o env w h in
      if-holds (λ (x : Result QueryError HttpResponse × Run). IsSound u token o x.1)
        (ltb r.status 200 || leb 300 r.status)
        (err (chunk_fault env (env.decode w.turn r)), record w { turn = suc w.turn })
        (bind_result (check_active env w)
          (λ _. modify (λ x. record x { arrow_response_outstanding = true }) >> pure r))
        (λ e. h) (λ e. then-Keeps (IsSound u token o) (check_active env w) _ active (λ a v p. p))

  fetch_arrow-Keeps : Keeps (IsSound u token o) (fetch_arrow env)
  unfolding fetch_arrow
  fetch_arrow-Keeps w h =
      let v : Run = record w { session = ask_arrow w.session } in
      then-Keeps (IsSound u token o) (send env v) _
        (send-Keeps u token o fits env v (ask_arrow-Keeps w h))
        (λ r x q.
          then-Keeps (IsSound u token o) (check_status env r x) _ (check_status-Keeps r x q)
            (λ kept y s. s))

  next_arrow_active-Keeps : Keeps (IsSound u token o) (next_arrow_active env)
  unfolding next_arrow_active
  next_arrow_active-Keeps w h =
      if-holds (Holds (Option HttpResponse))
        (leb w.session.expected_chunks w.session.next_chunk_index) ((finish >> pure none) w)
        (fetch_arrow env w) (λ e. finish-none-Keeps u token o HttpResponse w h)
        (λ e. fetch_arrow-Keeps w h)

  next_arrow_body-Keeps : Keeps (IsSound u token o) (next_arrow_body env)
  unfolding next_arrow_body
  next_arrow_body-Keeps w h =
      then-Keeps (IsSound u token o) (check_active env w) (λ _. next_arrow_active env)
        (check_active-Keeps u token o env w h) (λ a. next_arrow_active-Keeps)

  pub next_arrow_chunk-Keeps : Keeps (IsSound u token o) (next_arrow_chunk env)
  unfolding next_arrow_chunk
  next_arrow_chunk-Keeps w h =
      let body = try_or_cancel-Keeps u token o (next_arrow_body env) next_arrow_body-Keeps w h in
      ground (arith, h, body)

  count_arrow_rows-Keeps : (n : ℕ) → Keeps (IsSound u token o) (count_arrow_rows env n)
  unfolding count_arrow_rows
  count_arrow_rows-Keeps n w h =
      let s = w.session in
      let more = rows-AreWithin o fits s.options s.rows s.cells s.total_response_bytes n h.1 in
      let most =
        cells-AreWithin o fits s.options (add64 s.rows n) s.cells s.total_response_bytes
          (n * length s.metadata) in
      let room = product-fits (left_of s.options.max_cells s.cells) (length s.metadata) n in
      ground (arith, h, more, most, room, fits)

  report_body-Keeps : (n : ℕ) → Keeps (IsSound u token o) (report_body env n)
  unfolding report_body
  report_body-Keeps n w h =
      then-Keeps (IsSound u token o) (check_active env w) (λ _. count_arrow_rows env n)
        (check_active-Keeps u token o env w h) (λ a. count_arrow_rows-Keeps n)

  pub report_arrow_chunk-Keeps : (n : ℕ) → Keeps (IsSound u token o) (report_arrow_chunk env n)
  unfolding report_arrow_chunk
  report_arrow_chunk-Keeps n w h =
      let body = try_or_cancel-Keeps u token o (report_body env n) (report_body-Keeps n) w h in
      ground (arith, h, body)
