-- ===== src/Query/Reading.antt =====
-- Reading a result to its end: every chunk counts, so the reading stops by itself.
use duckdb_data.Query.Types.{
  QueryResponse, QueryOptions, QueryError, unsafe_chunk_url, cursor_terminal, not_reported,
  Environment, Run, ResultChunk, M, bind_result, modify, get, pure, ◌>>=◌, ◌>>◌, add64,
}
use duckdb_data.Query.Session.{
  remember_query_id, check_active, accept, send, decode, finish, cancel_on_error, try_or_cancel,
  is_numbered,
}
use duckdb_data.Query.Cursor.{
  ask_numbered, ask_followed, is_visited, take_response, fetch, next_numbered, next_followed,
  next_direct, next_chunk_body, next_chunk,
}
use duckdb_data.Query.Checks.{is_safe_chunk_path}
use duckdb_data.Query.Client.{collect, drain}
use duckdb_data.Query.Frame.{
  IsFrame, IsCounted, check_active-IsFrame, remember_query_id-IsFrame, send-IsFrame, decode-IsFrame,
  accept-IsCounted,
}
use duckdb_data.Base.{
  ℕ, zero, suc, ◌+◌, ◌^◌, ◌≤◌, ◌<◌, ◌≡◌, refl, sym, ap, ◌∙◌, subst, Bool, true, false, not, ◌||◌,
  Option, none, some, List, ◌∷◌, arith, leb, if◌then◌else◌, is_empty, Result, ok, err,
}

-- A call that gives a chunk has counted it.
abbrev IsRead : Run → Result QueryError (Option ResultChunk) × Run → Type 0
IsRead w (ok (some chunk), v) = IsCounted {A = ResultChunk} w (ok chunk, v)
IsRead w _ = Unit {0}

carry-IsRead :
    (w v : Run) (x : Result QueryError (Option ResultChunk) × Run)
    → v.session.options ≡ w.session.options
    → v.session.fetched_chunks ≡ w.session.fetched_chunks
    → IsRead v x
    → IsRead w x
carry-IsRead w v (ok (some c), u) o f (a, b, l) = (
  a ∙ o,
  rw (sym f) b,
  subst (λ q. w.session.fetched_chunks < q.max_chunks) o
      (subst (λ n. n < v.session.options.max_chunks) f l),
)
carry-IsRead w v (ok none, u) o f h = tt
carry-IsRead w v (err e, u) o f h = tt

bind-IsRead :
    {A : Type 0} (w : Run) (x : Result QueryError A × Run) (f : A → M (Option ResultChunk))
    → IsFrame w x
    → ((a : A) (v : Run) → IsRead v (f a v))
    → IsRead w (bind_result x f)
bind-IsRead w (ok a, v) f h k = carry-IsRead w v (f a v) h.0 h.1 (k a v)
bind-IsRead w (err e, v) f h k = tt

-- What take_response does with the chunk.
abbrev note_chunk : ResultChunk → M (Option ResultChunk)
note_chunk chunk = do
  s ← get
  modify λ x. record x { next_url = if is_numbered x.mode then x.next_url else chunk.next_url }
  pure (some chunk)

note-IsRead :
    (w : Run) (x : Result QueryError ResultChunk × Run)
    → IsCounted w x
    → IsRead w (bind_result x note_chunk)
note-IsRead w (ok c, v) h = h
note-IsRead w (err e, v) h = tt

take_response-IsRead :
    (env : Environment) (r : QueryResponse) (w : Run) → IsRead w (take_response env r w)
unfolding take_response
take_response-IsRead env r w =
    bind-IsRead w (remember_query_id r w) _ (remember_query_id-IsFrame r w) λ a v.
      bind-IsRead v (check_active env v) _ (check_active-IsFrame env v)
        λ b u. note-IsRead u (accept r u) (accept-IsCounted r u)

fetch-IsRead : (env : Environment) (w : Run) → IsRead w (fetch env w)
fetch-IsRead env w = bind-IsRead w (send env w) _ (send-IsFrame env w) λ answer v.
    bind-IsRead v (decode env answer v) _ (decode-IsFrame env answer v)
      λ response u. take_response-IsRead env response u

done-IsRead : (w : Run) → IsRead w ((finish >> pure none) w)
unfolding finish
done-IsRead w = ended (finish w)
  where
    ended : (x : Result QueryError (Unit {0}) × Run) → IsRead w (bind_result x λ _. pure none)
    ended (ok t, v) = tt
    ended (err e, v) = tt

if-IsRead :
    (w : Run) (b : Bool) (x y : Result QueryError (Option ResultChunk) × Run)
    → IsRead w x
    → IsRead w y
    → IsRead w (if b then x else y)
if-IsRead w true x y h k = h
if-IsRead w false x y h k = k

next_numbered-IsRead : (env : Environment) (w : Run) → IsRead w (next_numbered env w)
unfolding next_numbered
next_numbered-IsRead env w =
    if-IsRead w (leb w.session.expected_chunks w.session.next_chunk_index) ((finish >> pure none) w)
      (fetch env (ask_numbered w)) (done-IsRead w) (fetch-IsRead env (ask_numbered w))

next_followed-IsRead : (env : Environment) (w : Run) → IsRead w (next_followed env w)
unfolding next_followed
next_followed-IsRead env w =
    let next_url = w.session.next_url in
    let refused = not (is_safe_chunk_path next_url) || is_visited next_url w.session.visited_urls in
    let more = fetch env (ask_followed w) in
    if-IsRead w (is_empty next_url) ((finish >> pure none) w)
      (if refused then (err unsafe_chunk_url, w) else more) (done-IsRead w)
      (if-IsRead w refused (err unsafe_chunk_url, w) more tt (fetch-IsRead env (ask_followed w)))

next_direct-IsRead :
    (env : Environment) (buffered : Option QueryResponse) (w : Run)
    → IsRead w (next_direct env buffered w)
unfolding next_direct
next_direct-IsRead env none w = next_followed-IsRead env w
next_direct-IsRead env (some r) w =
    take_response-IsRead env r (record w { session = record w.session { buffered_direct = none } })

caught-IsRead :
    (w : Run) (x : Result QueryError (Option ResultChunk) × Run)
    → IsRead w x
    → IsRead w (cancel_on_error x)
caught-IsRead w (ok (some c), v) h = h
caught-IsRead w (ok none, v) h = tt
caught-IsRead w (err e, v) h = tt

next_chunk_body-IsRead : (env : Environment) (w : Run) → IsRead w (next_chunk_body env w)
unfolding next_chunk_body
next_chunk_body-IsRead env w =
    if-IsRead w (is_numbered w.session.mode) (next_numbered env w)
      (next_direct env w.session.buffered_direct w) (next_numbered-IsRead env w)
      (next_direct-IsRead env w.session.buffered_direct w)

next_chunk-IsRead : (env : Environment) (w : Run) → IsRead w (next_chunk env w)
unfolding next_chunk
next_chunk-IsRead env w =
    let body = try_or_cancel (next_chunk_body env) w in
    let open_or_not = if w.session.terminal then (err cursor_terminal, w) else body in
    let read = caught-IsRead w (next_chunk_body env w) (next_chunk_body-IsRead env w) in
    if-IsRead w w.session.arrow_response_outstanding (err not_reported, w)
      (if w.session.reconciled then (ok none, w) else open_or_not) tt
      (if-IsRead w w.session.reconciled (ok none, w) open_or_not tt
        (if-IsRead w w.session.terminal (err cursor_terminal, w) body tt read))

collect_same :
    (w : Run) (x : Result QueryError (Option ResultChunk) × Run) (more less : M (List ResultChunk))
    → IsRead w x
    → ((v : Run)
        → v.session.options ≡ w.session.options
        → v.session.fetched_chunks ≡ add64 w.session.fetched_chunks 1
        → w.session.fetched_chunks < w.session.options.max_chunks
        → more v ≡ less v)
    → bind_result x (collect more) ≡ bind_result x (collect less)
collect_same w (ok (some c), v) more less h k =
    ap (λ y. bind_result y (λ chunks. pure (c ∷ chunks))) (k v h.0 h.1 h.2)
collect_same w (ok none, v) more less h k = refl
collect_same w (err e, v) more less h k = refl

-- Reading needs no more rounds than chunks are left under the limit, and one: with more rounds it
-- gives the same result, the same requests and the same session. The limit on chunks is a number
-- of 64 bits and not yet exceeded.
pub drain_enough :
    (env : Environment) (rounds extra : ℕ) (w : Run)
    → w.session.fetched_chunks ≤ w.session.options.max_chunks
    → w.session.options.max_chunks < 2 ^ 64
    → w.session.options.max_chunks < w.session.fetched_chunks + rounds
    → drain env (rounds + extra) w ≡ drain env rounds w
unfolding drain
drain_enough env zero extra w le fits enough = absurd (omega arith)
drain_enough env (suc rounds) extra w le fits enough =
    let one_more : suc rounds + extra ≡ suc (rounds + extra) = omega arith in
    ap (λ n. drain env n w) one_more
    ∙ collect_same w (next_chunk env w) (drain env (rounds + extra)) (drain env rounds)
        (next_chunk-IsRead env w)
        λ v same count less.
          let limit : v.session.options.max_chunks ≡ w.session.options.max_chunks =
            ap (λ (q : QueryOptions). q.max_chunks) same in
          drain_enough env rounds extra v (omega (arith, limit, count, less, fits))
            (omega (arith, limit, fits)) (omega (arith, limit, count, less, fits, enough))
