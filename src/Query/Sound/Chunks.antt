-- ===== src/Query/Sound/Chunks.antt =====
-- The calls of QueryCursor keep `IsSound`.
use duckdb_data.Query.Types.{
  HttpRequest, QueryResponse, QueryOptions, QueryError, Environment, Run, bind_result, pure, throw,
  unsafe_chunk_url, ◌>>◌, ResultChunk,
}
use duckdb_data.Query.Checks.{trim_trailing_slash, is_safe_chunk_path, query_prefix}
use duckdb_data.Query.Session.{
  is_numbered, remember_query_id, accept, finish, check_active, send, decode,
}
use duckdb_data.Query.Cursor.{
  chunk_url, get_request, is_visited, ask_numbered, ask_followed, take_response, fetch,
  next_numbered, next_followed, next_direct, next_chunk_body, next_chunk,
}
use duckdb_data.Query.Sound.{endpoint, AreConfined, Fits, IsSound, Keeps, then-Keeps}
use duckdb_data.Query.Sound.Steps.{
  starts_with-append, query_url-starts_with, try_or_cancel-Keeps, remember_query_id-Keeps,
  finish-Keeps, check_active-Keeps, send-Keeps, decode-Keeps, accept-Keeps,
}
use duckdb_data.Base.{
  ◌≡◌, refl, sym, subst, Bool, true, false, not, ◌||◌, Option, none, some, List, [], ◌∷◌, ◌++◌,
  arith, leb, if◌then◌else◌, if-holds, Bytes, codes, is_empty, starts_with, to_string, Result,
}

starts_with-shorter : (p s x : Bytes) → starts_with (p ++ s) x ≡ true → starts_with p x ≡ true
unfolding starts_with
starts_with-shorter [] s x h = refl
starts_with-shorter (c ∷ p) s [] h = h
starts_with-shorter (c ∷ p) s (d ∷ x) h = ground (arith, h, starts_with-shorter p s x)

safe_path-starts_with :
    (path : Bytes) → is_safe_chunk_path path ≡ true → starts_with query_prefix path ≡ true
unfolding is_safe_chunk_path
safe_path-starts_with path h = ground (arith, h)

-- Behind the tenant, a safe path leads below the endpoint.
safe_path-endpoint :
    (u path : Bytes)
    → is_safe_chunk_path path ≡ true
    → starts_with (endpoint u) (trim_trailing_slash u ++ path) ≡ true
safe_path-endpoint u path h =
    starts_with-append (trim_trailing_slash u) (codes "/api/v3/query") path
      (starts_with-shorter (codes "/api/v3/query") (codes "/") path (safe_path-starts_with path h))

safe_of : (safe visited : Bool) → not safe || visited ≡ false → safe ≡ true
safe_of safe visited h = ground (arith, h)

module _ (u token : Bytes) (o : QueryOptions) where
  -- A GET of `url` by the session.
  pub get_request-AreConfined :
      (url i accept : Bytes) (q : HttpRequest) (sent : List HttpRequest)
      → starts_with (endpoint u) url ≡ true
      → AreConfined u token i q sent
      → AreConfined u token i (record (get_request url q) { accept = accept }) sent
  unfolding AreConfined
  get_request-AreConfined url i accept q sent e (a, c, h) = (a, (e, c.1, c.2), h)

  pub AreConfined-instance_url :
      (i : Bytes) (q : HttpRequest) (sent : List HttpRequest) → AreConfined u token i q sent → i ≡ u
  unfolding AreConfined
  AreConfined-instance_url i q sent h = h.0

  ask_numbered-Keeps : (w : Run) → IsSound u token o w → IsSound u token o (ask_numbered w)
  ask_numbered-Keeps w h =
      let s = w.session in
      let e = AreConfined-instance_url s.instance_url s.request w.sent h.0 in
      (
        get_request-AreConfined (chunk_url s) s.instance_url s.request.accept s.request w.sent
            (query_url-starts_with u s (codes "/chunks/" ++ to_string s.next_chunk_index) e) h.0,
        h.1,
      )

  ask_followed-Keeps :
      (w : Run)
      → is_safe_chunk_path w.session.next_url ≡ true
      → IsSound u token o w
      → IsSound u token o (ask_followed w)
  ask_followed-Keeps w safe h =
      let s = w.session in
      let e = AreConfined-instance_url s.instance_url s.request w.sent h.0 in
      (
        get_request-AreConfined (trim_trailing_slash s.instance_url ++ s.next_url) s.instance_url
            s.request.accept s.request w.sent
            (subst (λ x. starts_with (endpoint u) (trim_trailing_slash x ++ s.next_url) ≡ true)
              (sym e) (safe_path-endpoint u s.next_url safe))
            h.0,
        h.1,
      )

  pub finish-none-Keeps :
      (A : Type 0) (w : Run)
      → IsSound u token o w
      → IsSound u token o (bind_result (finish w) λ _. pure {A = Option A} none).1
  finish-none-Keeps A w h =
      then-Keeps (IsSound u token o) (finish w) (λ _. pure {A = Option A} none)
        (finish-Keeps u token o w h) (λ a v p. p)

  abbrev Holds : (A : Type 0) → Result QueryError A × Run → Type 0
  Holds A x = IsSound u token o x.1

  module _ (fits : Fits o) (env : Environment) where
    take_response-Keeps : (r : QueryResponse) → Keeps (IsSound u token o) (take_response env r)
    unfolding take_response
    take_response-Keeps r w h =
        then-Keeps (IsSound u token o) (remember_query_id r w) _
          (remember_query_id-Keeps u token o r w h)
          (λ a v p.
            then-Keeps (IsSound u token o) (check_active env v) _
              (check_active-Keeps u token o env v p)
              (λ b x q.
                then-Keeps (IsSound u token o) (accept r x) _ (accept-Keeps u token o fits r x q)
                  (λ c y s. s)))

    fetch-Keeps : Keeps (IsSound u token o) (fetch env)
    fetch-Keeps w h =
        then-Keeps (IsSound u token o) (send env w) _ (send-Keeps u token o fits env w h)
          (λ answer v p.
            then-Keeps (IsSound u token o) (decode env answer v) _
              (decode-Keeps u token o env answer v p) take_response-Keeps)

    next_numbered-Keeps : Keeps (IsSound u token o) (next_numbered env)
    unfolding next_numbered
    next_numbered-Keeps w h =
        if-holds (Holds (Option ResultChunk))
          (leb w.session.expected_chunks w.session.next_chunk_index) ((finish >> pure none) w)
          (fetch env (ask_numbered w)) (λ e. finish-none-Keeps ResultChunk w h)
          (λ e. fetch-Keeps (ask_numbered w) (ask_numbered-Keeps w h))

    next_followed-Keeps : Keeps (IsSound u token o) (next_followed env)
    unfolding next_followed
    next_followed-Keeps w h =
        if-holds (Holds (Option ResultChunk)) (is_empty w.session.next_url)
          ((finish >> pure none) w)
          (if not (is_safe_chunk_path w.session.next_url)
              || is_visited w.session.next_url w.session.visited_urls
            then throw unsafe_chunk_url w
            else fetch env (ask_followed w))
          (λ e. finish-none-Keeps ResultChunk w h)
          (λ e.
            if-holds (Holds (Option ResultChunk))
              (not (is_safe_chunk_path w.session.next_url)
                || is_visited w.session.next_url w.session.visited_urls)
              (throw unsafe_chunk_url w) (fetch env (ask_followed w)) (λ k. h)
              (λ k. fetch-Keeps (ask_followed w) (
                ask_followed-Keeps w
                  (safe_of (is_safe_chunk_path w.session.next_url)
                    (is_visited w.session.next_url w.session.visited_urls) k)
                  h)))

    next_direct-Keeps :
        (buffered : Option QueryResponse) → Keeps (IsSound u token o) (next_direct env buffered)
    unfolding next_direct
    next_direct-Keeps none w h = next_followed-Keeps w h
    next_direct-Keeps (some r) w h =
        take_response-Keeps r (record w { session = record w.session { buffered_direct = none } }) h

    next_chunk_body-Keeps : Keeps (IsSound u token o) (next_chunk_body env)
    unfolding next_chunk_body
    next_chunk_body-Keeps w h =
        if-holds (Holds (Option ResultChunk)) (is_numbered w.session.mode) (next_numbered env w)
          (next_direct env w.session.buffered_direct w) (λ e. next_numbered-Keeps w h)
          (λ e. next_direct-Keeps w.session.buffered_direct w h)

    pub next_chunk-Keeps : Keeps (IsSound u token o) (next_chunk env)
    unfolding next_chunk
    next_chunk-Keeps w h =
        let body = try_or_cancel-Keeps u token o (next_chunk_body env) next_chunk_body-Keeps w h in
        ground (arith, h, body)
