-- ===== src/Query/Sound/Steps.antt =====
-- The member functions of Session keep `IsSound`.
use duckdb_data.Query.Types.{
  HttpRequest, HttpResponse, QueryResponse, QueryOptions, QueryError, Session, Environment, Run,
  Cell, M, bind_result, ◌>>◌, add64, ResultChunk,
}
use duckdb_data.Query.Checks.{trim_trailing_slash}
use duckdb_data.Query.Session.{
  query_url, cancellation, cancel, cancel_on_error, try_or_cancel, left_of, remember_id,
  remember_next, remember_query_id, check_chunk, accept_rows, count_chunk, accept, finish,
  check_active, transport_fault, receive, limited, send_active, send, decode_fault, decode_answer,
  decode,
}
use duckdb_data.Query.Sound.{
  endpoint, AreConfined, AreWithin, Fits, IsSound, Keeps, patched-IsSound, bind-Keeps, then-Keeps,
}
use duckdb_data.Base.{
  ℕ, suc, ◌≡◌, refl, sym, subst, true, false, Option, none, some, List, [], ◌∷◌, ◌++◌, append-nil,
  append_assoc, arith, ltb, length, Bytes, codes, starts_with, Result, ok, err,
}

pub starts_with-append :
    (u p s : Bytes) → starts_with p s ≡ true → starts_with (u ++ p) (u ++ s) ≡ true
unfolding starts_with
starts_with-append [] p s h = h
starts_with-append (x ∷ u) p s h = ground (arith, starts_with-append u p s h)

pub query_url-starts_with :
    (u : Bytes) (s : Session) (rest : Bytes)
    → s.instance_url ≡ u
    → starts_with (endpoint u) (query_url s ++ rest) ≡ true
unfolding starts_with
query_url-starts_with u s rest e =
    rw
      (
        append_assoc (trim_trailing_slash s.instance_url) (codes "/api/v3/query/" ++ s.query_id)
            rest,
        e,
      )
      (starts_with-append (trim_trailing_slash u) (codes "/api/v3/query")
        ((codes "/api/v3/query/" ++ s.query_id) ++ rest) refl)

pub query_url-endpoint :
    (u : Bytes) (s : Session) → s.instance_url ≡ u → starts_with (endpoint u) (query_url s) ≡ true
query_url-endpoint u s e =
    subst (λ x. starts_with (endpoint u) x ≡ true) (append-nil (query_url s))
      (query_url-starts_with u s [] e)

module _ (u token : Bytes) where
  cancellation-AreConfined :
      (s : Session) (sent : List HttpRequest)
      → AreConfined u token s.instance_url s.request sent
      → AreConfined u token s.instance_url s.request (cancellation s ∷ sent)
  unfolding AreConfined
  cancellation-AreConfined s sent (i, c, h) = (i, c, ((query_url-endpoint u s i, c.1, c.2), h))

  limited-AreConfined :
      (env : Environment) (now : ℕ) (s : Session) (sent : List HttpRequest)
      → AreConfined u token s.instance_url s.request sent
      → AreConfined u token s.instance_url (limited env now s) (limited env now s ∷ sent)
  unfolding AreConfined
  limited-AreConfined env now s sent (i, c, h) = (i, c, (c, h))

module _ (o : QueryOptions) (fits : Fits o) where
  pub bytes-AreWithin :
      (options : QueryOptions) (rows cells bytes n : ℕ)
      → AreWithin o options rows cells bytes
      → ltb (left_of options.max_total_response_bytes bytes) n ≡ false
      → AreWithin o options rows cells (add64 bytes n)
  unfolding AreWithin
  bytes-AreWithin options rows cells bytes n h g = ground (arith, h, g, fits)

  pub cells-AreWithin :
      (options : QueryOptions) (rows cells bytes n : ℕ)
      → AreWithin o options rows cells bytes
      → ltb (left_of options.max_cells cells) n ≡ false
      → AreWithin o options rows (add64 cells n) bytes
  unfolding AreWithin
  cells-AreWithin options rows cells bytes n h g = ground (arith, h, g, fits)

  pub rows-AreWithin :
      (options : QueryOptions) (rows cells bytes n : ℕ)
      → AreWithin o options rows cells bytes
      → ltb (left_of options.max_rows rows) n ≡ false
      → AreWithin o options (add64 rows n) cells bytes
  unfolding AreWithin
  rows-AreWithin options rows cells bytes n h g = ground (arith, h, g, fits)

module _ (u token : Bytes) (o : QueryOptions) where
  pub cancel-Keeps : (w : Run) → IsSound u token o w → IsSound u token o (cancel w)
  unfolding cancel
  cancel-Keeps w h = ground (arith, cancellation-AreConfined u token w.session w.sent h.0)

  pub try_or_cancel-Keeps :
      {A : Type 0} (m : M A)
      → Keeps (IsSound u token o) m
      → Keeps (IsSound u token o) (try_or_cancel m)
  try_or_cancel-Keeps {A = A} m k w h = caught (m w) (k w h)
    where
      caught :
          (x : Result QueryError A × Run)
          → IsSound u token o x.1
          → IsSound u token o (cancel_on_error x).1
      caught (ok a, v) p = p
      caught (err e, v) p = cancel-Keeps v p

  remember_id-Keeps : (id : Bytes) → Keeps (IsSound u token o) (remember_id id)
  unfolding remember_id
  remember_id-Keeps id w h = patched-IsSound u token o w (remember_id id w).1 (ground arith) h

  remember_next-Keeps : (url : Bytes) → Keeps (IsSound u token o) (remember_next url)
  unfolding remember_next
  remember_next-Keeps url w h = patched-IsSound u token o w (remember_next url w).1 (ground arith) h

  pub remember_query_id-Keeps :
      (r : QueryResponse) → Keeps (IsSound u token o) (remember_query_id r)
  unfolding remember_query_id
  remember_query_id-Keeps r w h =
      then-Keeps (IsSound u token o) (remember_id r.query_id w)
        (λ _. remember_next r.chunk.next_url) (remember_id-Keeps r.query_id w h)
        (λ a. remember_next-Keeps r.chunk.next_url)

  pub finish-Keeps : Keeps (IsSound u token o) finish
  unfolding finish
  finish-Keeps w h = patched-IsSound u token o w (finish w).1 (ground arith) h

  pub check_active-Keeps : (env : Environment) → Keeps (IsSound u token o) (check_active env)
  unfolding check_active
  check_active-Keeps env w h = patched-IsSound u token o w (check_active env w).1 (ground arith) h

  pub decode-Keeps :
      (env : Environment) (r : HttpResponse) → Keeps (IsSound u token o) (decode env r)
  unfolding decode decode_answer decode_fault
  decode-Keeps env r w h = patched-IsSound u token o w (decode env r w).1 (ground arith) h

  module _ (fits : Fits o) where
    receive-Keeps :
        (env : Environment) (remaining : ℕ) (answer : Option HttpResponse) (w : Run)
        → remaining
          ≡ left_of w.session.options.max_total_response_bytes w.session.total_response_bytes
        → IsSound u token o w
        → IsSound u token o (receive env remaining answer w).1
    unfolding receive transport_fault
    receive-Keeps env remaining none w e h =
        patched-IsSound u token o w (receive env remaining none w).1 (ground arith) h
    receive-Keeps env remaining (some response) w e h =
        let more =
          bytes-AreWithin o fits w.session.options w.session.rows w.session.cells
            w.session.total_response_bytes (length response.body) h.1 in
        ground (arith, h, e, more)

    send_active-Keeps : (env : Environment) → Keeps (IsSound u token o) (send_active env)
    unfolding send_active
    send_active-Keeps env w h =
        let now = env.now_ms w.turn w.slept_ms in
        let q = limited env now w.session in
        receive-Keeps env
          (left_of w.session.options.max_total_response_bytes w.session.total_response_bytes)
          (env.respond (suc w.turn) q)
          (record w {
            session = record w.session { request = q };
            turn = suc (suc w.turn);
            sent = q ∷ w.sent;
          })
          refl (limited-AreConfined u token env now w.session w.sent h.0, h.1)

    pub send-Keeps : (env : Environment) → Keeps (IsSound u token o) (send env)
    unfolding send
    send-Keeps env w h =
        then-Keeps (IsSound u token o) (check_active env w) (λ _. send_active env)
          (check_active-Keeps env w h) (λ a. send_active-Keeps env)

    -- Sound, and with room for `n` more rows.
    abbrev HasRoom : ℕ → Run → Type 0
    HasRoom n w =
        IsSound u token o w × (ltb (left_of w.session.options.max_rows w.session.rows) n ≡ false)

    check_chunk-same : (r : QueryResponse) (w : Run) → (check_chunk r w).1 ≡ w
    unfolding check_chunk
    check_chunk-same r w = ground arith

    check_chunk_room :
        (r : QueryResponse) (w : Run)
        → (check_chunk r w).0 ≡ ok tt
        → ltb (left_of w.session.options.max_rows w.session.rows) (length r.chunk.rows) ≡ false
    unfolding check_chunk
    check_chunk_room r w e = ground (arith, e)

    accept_rows-Keeps : (rows : List (List Cell)) (n : ℕ) → Keeps (HasRoom n) (accept_rows rows)
    unfolding accept_rows
    accept_rows-Keeps [] n w h = h
    accept_rows-Keeps (row ∷ rows) n w h =
        let next : Run = record w {
          session = record w.session { cells = add64 w.session.cells (length row) };
        } in
        let more =
          cells-AreWithin o fits w.session.options w.session.rows w.session.cells
            w.session.total_response_bytes (length row) h.0.1 in
        ground (arith, h, more, accept_rows-Keeps rows n next)

    count_chunk-Keeps :
        (chunk : ResultChunk) (w : Run)
        → HasRoom (length chunk.rows) w
        → IsSound u token o (count_chunk chunk w).1
    unfolding count_chunk
    count_chunk-Keeps chunk w h =
        let more =
          rows-AreWithin o fits w.session.options w.session.rows w.session.cells
            w.session.total_response_bytes (length chunk.rows) h.0.1 h.1 in
        ground (arith, h, more)

    accept_rest-Keeps :
        (chunk : ResultChunk) (w : Run)
        → HasRoom (length chunk.rows) w
        → IsSound u token o ((accept_rows chunk.rows >> count_chunk chunk) w).1
    accept_rest-Keeps chunk w h =
        bind-Keeps (IsSound u token o) (HasRoom (length chunk.rows)) (accept_rows chunk.rows w)
          (λ _. count_chunk chunk) (accept_rows-Keeps chunk.rows (length chunk.rows) w h)
          (λ v p. p.0) (λ a. count_chunk-Keeps chunk)

    pub accept-Keeps : (r : QueryResponse) → Keeps (IsSound u token o) (accept r)
    unfolding accept
    accept-Keeps r w h = rest (check_chunk r w) (check_chunk-same r w) (check_chunk_room r w)
      where
        rest :
            (x : Result QueryError (Unit {0}) × Run)
            → x.1 ≡ w
            → (x.0 ≡ ok tt
                → ltb (left_of w.session.options.max_rows w.session.rows) (length r.chunk.rows)
                  ≡ false)
            → IsSound u token o
                (bind_result x λ _. accept_rows r.chunk.rows >> count_chunk r.chunk).1
        rest (ok t, v) e k =
            accept_rest-Keeps r.chunk v (subst (HasRoom (length r.chunk.rows)) (sym e) (h, k refl))
        rest (err x, v) e k = subst (IsSound u token o) (sym e) h
