-- ===== src/Query/Frame.antt =====
-- What the calls of a session leave alone: its options, and the number of chunks fetched.
use duckdb_data.Query.Types.{
  HttpResponse, add64, Cell, QueryResponse, QueryError, Environment, Run, M, bind_result,
}
use duckdb_data.Query.Session.{
  accept_rows, accept, remember_id, remember_next, remember_query_id, check_active, limited,
  left_of, receive, transport_fault, send_active, send, decode, decode_answer, decode_fault,
}
use duckdb_data.Base.{
  ℕ, suc, ◌<◌, ◌≡◌, refl, ◌∙◌, Option, none, some, List, [], ◌∷◌, arith, length, Bytes, Result, ok,
  err,
}

abbrev pub IsFrame : {A : Type 0} → Run → Result QueryError A × Run → Type 0
IsFrame w x =
    (x.1.session.options ≡ w.session.options)
    × (x.1.session.fetched_chunks ≡ w.session.fetched_chunks)

pub check_active-IsFrame : (env : Environment) (w : Run) → IsFrame w (check_active env w)
unfolding check_active
check_active-IsFrame env w = (ground arith, ground arith)

remember_id-IsFrame : (id : Bytes) (w : Run) → IsFrame w (remember_id id w)
unfolding remember_id
remember_id-IsFrame id w = (ground arith, ground arith)

remember_next-IsFrame : (url : Bytes) (w : Run) → IsFrame w (remember_next url w)
unfolding remember_next
remember_next-IsFrame url w = (ground arith, ground arith)

receive-IsFrame :
    (env : Environment) (remaining : ℕ) (answer : Option HttpResponse) (w : Run)
    → IsFrame w (receive env remaining answer w)
unfolding receive transport_fault
receive-IsFrame env remaining none w = (ground arith, ground arith)
receive-IsFrame env remaining (some r) w = (ground arith, ground arith)

pub decode-IsFrame : (env : Environment) (r : HttpResponse) (w : Run) → IsFrame w (decode env r w)
unfolding decode decode_answer decode_fault
decode-IsFrame env r w = (ground arith, ground arith)

bind-IsFrame :
    {A B : Type 0} (w : Run) (x : Result QueryError A × Run) (f : A → M B)
    → IsFrame w x
    → ((a : A) (v : Run) → IsFrame v (f a v))
    → IsFrame w (bind_result x f)
bind-IsFrame w (ok a, v) f h k = ((k a v).0 ∙ h.0, (k a v).1 ∙ h.1)
bind-IsFrame w (err e, v) f h k = h

pub remember_query_id-IsFrame : (r : QueryResponse) (w : Run) → IsFrame w (remember_query_id r w)
unfolding remember_query_id
remember_query_id-IsFrame r w =
    bind-IsFrame w (remember_id r.query_id w) _ (remember_id-IsFrame r.query_id w)
      λ a v. remember_next-IsFrame r.chunk.next_url v

send_active-IsFrame : (env : Environment) (w : Run) → IsFrame w (send_active env w)
unfolding send_active
send_active-IsFrame env w =
    let q = limited env (env.now_ms w.turn w.slept_ms) w.session in
    receive-IsFrame env
      (left_of w.session.options.max_total_response_bytes w.session.total_response_bytes)
      (env.respond (suc w.turn) q)
      (record w {
        session = record w.session { request = q };
        turn = suc (suc w.turn);
        sent = q ∷ w.sent;
      })

pub send-IsFrame : (env : Environment) (w : Run) → IsFrame w (send env w)
unfolding send
send-IsFrame env w =
    bind-IsFrame w (check_active env w) (λ _. send_active env) (check_active-IsFrame env w)
      λ a v. send_active-IsFrame env v

accept_rows-IsFrame : (rows : List (List Cell)) (w : Run) → IsFrame w (accept_rows rows w)
unfolding accept_rows
accept_rows-IsFrame [] w = (refl, refl)
accept_rows-IsFrame (row ∷ rows) w =
    let next : Run = record w {
      session = record w.session { cells = add64 w.session.cells (length row) };
    } in
    let rest = accept_rows-IsFrame rows next in (ground (arith, rest), ground (arith, rest))

-- An accepted chunk is counted, and was not one too many.
abbrev pub IsCounted : {A : Type 0} → Run → Result QueryError A × Run → Type 0
IsCounted w (err e, v) = Unit {0}
IsCounted w (ok a, v) =
    (v.session.options ≡ w.session.options)
    × (v.session.fetched_chunks ≡ add64 w.session.fetched_chunks 1)
    × (w.session.fetched_chunks < w.session.options.max_chunks)

pub accept-IsCounted : (r : QueryResponse) (w : Run) → IsCounted w (accept r w)
unfolding accept
accept-IsCounted r w = let rows = accept_rows-IsFrame r.chunk.rows w in ground (arith, rows)
