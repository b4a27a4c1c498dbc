-- ===== src/Query/Sound/Calls.antt =====
-- A query, from its submission to the end of its session, stays with the tenant and its limits.
use duckdb_data.Query.Types.{QueryOptions, QueryError, Environment, Run}
use duckdb_data.Query.Checks.{is_trusted_tenant_url}
use duckdb_data.Query.Session.{cancel}
use duckdb_data.Query.Cursor.{next_chunk, next_arrow_chunk, report_arrow_chunk}
use duckdb_data.Query.Client.{fresh_run, prepare_internal, prepare, poll_rounds}
use duckdb_data.Query.Sound.{endpoint, AreConfined, AreWithin, Fits, IsSound}
use duckdb_data.Query.Sound.Steps.{cancel-Keeps}
use duckdb_data.Query.Sound.Chunks.{next_chunk-Keeps}
use duckdb_data.Query.Sound.Arrow.{next_arrow_chunk-Keeps, report_arrow_chunk-Keeps}
use duckdb_data.Query.Sound.Queries.{prepare_internal-Keeps}
use duckdb_data.Base.{
  ℕ, ◌≡◌, refl, subst, ◌⊎◌, Bool, true, List, [], ◌∷◌, ◌++◌, append-nil, arith, Bytes, codes,
  starts_with, Result, ok, err,
}

-- One call of the holder of a cursor, or the end of its session.
pub data CursorCall : Type 0 where
  reads_chunk reads_arrow_chunk destroys : CursorCall
  reports_rows : ℕ → CursorCall

-- The holder may go on after an exception.
abbrev pub call : Environment → CursorCall → Run → Run
call env reads_chunk w = (next_chunk env w).1
call env reads_arrow_chunk w = (next_arrow_chunk env w).1
call env (reports_rows n) w = (report_arrow_chunk env n w).1
call env destroys w = cancel w

unfoldable pub run_calls : Environment → List CursorCall → Run → Run
unfolding next_chunk next_arrow_chunk report_arrow_chunk cancel
run_calls env [] w = w
run_calls env (c ∷ calls) w = run_calls env calls (call env c w)

-- What the holder does with a query that was prepared; one that was not has no cursor.
abbrev pub calls_after : Environment → List CursorCall → Result QueryError (Unit {0}) × Run → Run
calls_after env calls (ok a, w) = run_calls env calls w
calls_after env calls (err e, w) = w

starts_with_refl : (x s : Bytes) → starts_with x (x ++ s) ≡ true
unfolding starts_with
starts_with_refl [] s = refl
starts_with_refl (c ∷ x) s = ground (arith, starts_with_refl x s)

fresh_run-IsSound :
    (env : Environment) (o : QueryOptions) (sql url token : Bytes) (metadata_only : Bool)
    → IsSound url (codes "Bearer " ++ token) o (fresh_run env o sql url token metadata_only)
unfolding AreConfined AreWithin
fresh_run-IsSound env o sql url token metadata_only = (
  (
    refl,
    (
      subst (λ x. starts_with (endpoint url) x ≡ true) (append-nil (endpoint url))
          (starts_with_refl (endpoint url) []),
      refl,
      refl,
    ),
    tt,
  ),
  (refl, ground arith, ground arith, ground arith),
)

module _ (u token : Bytes) (o : QueryOptions) (fits : Fits o) (env : Environment) where
  call-Keeps : (c : CursorCall) (w : Run) → IsSound u token o w → IsSound u token o (call env c w)
  call-Keeps reads_chunk w h = next_chunk-Keeps u token o fits env w h
  call-Keeps reads_arrow_chunk w h = next_arrow_chunk-Keeps u token o fits env w h
  call-Keeps (reports_rows n) w h = report_arrow_chunk-Keeps u token o fits env n w h
  call-Keeps destroys w h = cancel-Keeps u token o w h

  run_calls-Keeps :
      (calls : List CursorCall) (w : Run)
      → IsSound u token o w
      → IsSound u token o (run_calls env calls w)
  unfolding run_calls
  run_calls-Keeps [] w h = h
  run_calls-Keeps (c ∷ calls) w h = run_calls-Keeps calls (call env c w) (call-Keeps c w h)

  calls_after-Keeps :
      (calls : List CursorCall) (x : Result QueryError (Unit {0}) × Run)
      → IsSound u token o x.1
      → IsSound u token o (calls_after env calls x)
  calls_after-Keeps calls (ok a, w) h = run_calls-Keeps calls w h
  calls_after-Keeps calls (err e, w) h = h

-- A URL that is not trusted is refused, and nothing is sent.
prepare_untrusted :
    (env : Environment) (o : QueryOptions) (sql url token : Bytes) (metadata_only : Bool)
    (calls : List CursorCall)
    → (is_trusted_tenant_url url ≡ true)
      ⊎ ((calls_after env calls (prepare env o sql url token metadata_only)).sent ≡ [])
unfolding prepare prepare_internal
prepare_untrusted env o sql url token metadata_only calls = ground arith

-- Whatever the transport, the codec and the clock answer, and whatever calls the holder of the
-- cursor makes after `Prepare` succeeded: nothing is sent unless the URL is a trusted tenant URL;
-- each request went below that tenant's query endpoint, with the token given and without following
-- redirects; and the rows, the cells and the bytes counted are within the limits of the options,
-- which are numbers of 64 bits.
pub calls_after-prepare-IsSound :
    (env : Environment) (o : QueryOptions) (sql url token : Bytes) (metadata_only : Bool)
    (calls : List CursorCall)
    → Fits o
    → ((is_trusted_tenant_url url ≡ true)
        ⊎ ((calls_after env calls (prepare env o sql url token metadata_only)).sent ≡ []))
      × IsSound url
          (codes "Bearer " ++ token)
          o
          (calls_after env calls (prepare env o sql url token metadata_only))
unfolding prepare
calls_after-prepare-IsSound env o sql url token metadata_only calls fits = (
  prepare_untrusted env o sql url token metadata_only calls,
  calls_after-Keeps url (codes "Bearer " ++ token) o fits env calls
      (prepare env o sql url token metadata_only)
      (prepare_internal-Keeps url (codes "Bearer " ++ token) o fits env (poll_rounds env o) sql url
        token (fresh_run env o sql url token metadata_only)
        (fresh_run-IsSound env o sql url token metadata_only)),
)
