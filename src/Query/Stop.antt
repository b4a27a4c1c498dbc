-- ===== src/Query/Stop.antt =====
-- What a cursor still does once its query has ended.
use duckdb_data.Query.Types.{HttpRequest, QueryError, Environment, Run, Session}
use duckdb_data.Query.Checks.{trim_trailing_slash, is_safe_query_id}
use duckdb_data.Query.Session.{cancel, cancel_on_error, try_or_cancel, cancellation}
use duckdb_data.Query.Cursor.{next_chunk, next_chunk_body, next_arrow_chunk}
use duckdb_data.Base.{
  ◌≡◌, refl, sym, ap, ◌∙◌, subst, ◌⊎◌, inl, inr, true, false, ◌||◌, [], ◌∷◌, ◌++◌, arith,
  Bool-cases, codes, Result, ok, err,
}

-- The query has ended: it was cancelled, or its result was read to the end.
abbrev pub HasEnded : Session → Type 0
HasEnded s = (s.terminal || s.reconciled) ≡ true

abbrev pub HasNotEnded : Session → Type 0
HasNotEnded s = (s.terminal || s.reconciled) ≡ false

-- The request that ends a query at its server.
abbrev pub IsDelete : Session → HttpRequest → Type 0
IsDelete s q =
    (q.method ≡ codes "DELETE")
    × (q.url ≡ trim_trailing_slash s.instance_url ++ (codes "/api/v3/query/" ++ s.query_id))
    × (q.authorization ≡ s.request.authorization)
    × (q.body ≡ [])
    × (q.follow_redirects ≡ s.request.follow_redirects)
    × (q.timeout_ms ≡ s.options.cleanup_timeout_ms)
    × (q.max_response_bytes ≡ 65536)
    × (q.cleanup_request ≡ true)

-- Nothing was sent, for a query that has ended or whose id is not safe; or one DELETE, for another.
abbrev pub SendsDelete : Run → Run → Type 0
SendsDelete w w' =
    ((w' ≡ w) × ((HasEnded w.session) ⊎ (is_safe_query_id w.session.query_id ≡ false)))
    ⊎ ((HasEnded w'.session)
        × (HasNotEnded w.session)
        × (is_safe_query_id w.session.query_id ≡ true)
        × ((q : HttpRequest) × (w'.sent ≡ q ∷ w.sent) × IsDelete w.session q))

sends_delete : (w : Run) → SendsDelete w (cancel w)
unfolding cancel
sends_delete w = elim (Bool-cases (w.session.terminal || w.session.reconciled)) [
  | inl e ↦ rw e (inl (refl, inl refl))
  | inr e ↦ elim (Bool-cases (is_safe_query_id w.session.query_id)) [
    | inl f ↦
        rw (e, f)
          (inr (
            refl,
            refl,
            refl,
            (cancellation w.session, refl, (refl, refl, refl, refl, refl, refl, refl, refl)),
          ))
    | inr f ↦ rw (e, f) (inl (refl, inr refl))
  ]
]

-- Cancel leaves a query alone that has ended or whose id is not safe. For another it sends one
-- request and the query has ended: a DELETE without a body to the query's URL, with the
-- authorization and the redirect rule of the query's own requests, the timeout for cleaning up and a
-- limit of 64 KiB, marked so that an interruption does not stop it. A second Cancel changes nothing.
pub cancel_once : (w : Run) → SendsDelete w (cancel w) × (cancel (cancel w) ≡ cancel w)
unfolding cancel
cancel_once w = (sends_delete w, ground arith)

ended_cancel : (w : Run) → HasEnded w.session → cancel w ≡ w
unfolding cancel
ended_cancel w h = ground (arith, h)

cancel_ends : (w : Run) → is_safe_query_id w.session.query_id ≡ true → HasEnded (cancel w).session
unfolding cancel
cancel_ends w h = ground (arith, h)

-- Cancel keeps the query's id.
cancel-query_id : (w : Run) → (cancel w).session.query_id ≡ w.session.query_id
unfolding cancel
cancel-query_id w = ground arith

ended_next_chunk : (env : Environment) (w : Run) → HasEnded w.session → (next_chunk env w).1 ≡ w
unfolding next_chunk
ended_next_chunk env w h = ground (arith, h)

ended_next_arrow_chunk :
    (env : Environment) (w : Run) → HasEnded w.session → (next_arrow_chunk env w).1 ≡ w
unfolding next_arrow_chunk
ended_next_arrow_chunk env w h = ground (arith, h)

caught_ends :
    {A : Type 0} (x : Result QueryError A × Run) {e : QueryError}
    → (cancel_on_error x).0 ≡ err e
    → is_safe_query_id (cancel_on_error x).1.session.query_id ≡ true
    → HasEnded (cancel_on_error x).1.session
caught_ends (ok a, w) h safe = cc
caught_ends (err d, w) h safe = cancel_ends w (sym (ap is_safe_query_id (cancel-query_id w)) ∙ safe)

open_next_chunk :
    (env : Environment) (w : Run)
    → w.session.arrow_response_outstanding ≡ false
    → (w.session.terminal || w.session.reconciled) ≡ false
    → next_chunk env w ≡ try_or_cancel (next_chunk_body env) w
unfolding next_chunk
open_next_chunk env w o h = ground (arith, o, h)

abbrev FailsKnown : {A : Type 0} → QueryError → Result QueryError A × Run → Type 0
FailsKnown e x = (x.0 ≡ err e) × (is_safe_query_id x.1.session.query_id ≡ true)

failed_ends :
    (env : Environment) (w : Run) (e : QueryError)
    → w.session.arrow_response_outstanding ≡ false
    → FailsKnown e (next_chunk env w)
    → HasEnded (next_chunk env w).1.session
failed_ends env w e o h = elim (Bool-cases (w.session.terminal || w.session.reconciled)) [
  | inl t ↦ subst (λ v. HasEnded v.session) (sym (ended_next_chunk env w t)) t
  | inr f ↦
      let same = open_next_chunk env w o f in
      let k = subst (FailsKnown e) same h in
      subst (λ x. HasEnded x.1.session) (sym same) (caught_ends (next_chunk_body env w) k.0 k.1)
]

-- A NextChunk that fails on a query whose id is known ends the query: from then on Cancel,
-- NextChunk and NextArrowChunk change nothing and send nothing. No Arrow response is outstanding
-- before.
pub failed_next_chunk_is_final :
    (env later : Environment) (w : Run) (e : QueryError)
    → w.session.arrow_response_outstanding ≡ false
    → (next_chunk env w).0 ≡ err e
    → is_safe_query_id (next_chunk env w).1.session.query_id ≡ true
    → let w' = (next_chunk env w).1 in
      (cancel w' ≡ w') × ((next_chunk later w').1 ≡ w') × ((next_arrow_chunk later w').1 ≡ w')
failed_next_chunk_is_final env later w e o h safe =
    let ended = failed_ends env w e o (h, safe) in
    (ended_cancel _ ended, ended_next_chunk later _ ended, ended_next_arrow_chunk later _ ended)
