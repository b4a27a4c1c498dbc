-- ===== src/Query/Sound.antt =====
-- What holds of a session after every call on it: its requests stay at the tenant's query endpoint
-- and carry the token there, and its counters stay within their limits.
pub mod Steps
pub mod Chunks
pub mod Arrow
pub mod Queries
pub mod Calls
use duckdb_data.Query.Types.{HttpRequest, QueryOptions, Session, QueryError, Run, M, bind_result}
use duckdb_data.Query.Checks.{trim_trailing_slash, is_trusted_tenant_url}
use duckdb_data.Base.{
  ℕ, ◌^◌, ◌≤◌, ◌<◌, ◌≡◌, sym, subst, true, false, List, ◌++◌, All, Bytes, codes, starts_with,
  Result, ok, err,
}

-- Where every request of the tenant `u` begins.
abbrev pub endpoint : Bytes → Bytes
endpoint u = trim_trailing_slash u ++ codes "/api/v3/query"

-- A request to the tenant's query endpoint, with the token, that follows no redirect.
abbrev pub IsConfined : Bytes → Bytes → HttpRequest → Type 0
IsConfined u token q =
    (starts_with (endpoint u) q.url ≡ true)
    × (q.authorization ≡ token)
    × (q.follow_redirects ≡ false)

-- The session's requests: the one that is kept, and those that were sent.
unfoldable pub AreConfined : Bytes → Bytes → Bytes → HttpRequest → List HttpRequest → Type 0
AreConfined u token instance_url request sent =
    (instance_url ≡ u) × IsConfined u token request × All (IsConfined u token) sent

-- The counters of a session with the options `o`.
unfoldable pub AreWithin : QueryOptions → QueryOptions → ℕ → ℕ → ℕ → Type 0
AreWithin o options rows cells bytes =
    (options ≡ o)
    × (rows ≤ o.max_rows)
    × (cells ≤ o.max_cells)
    × (bytes ≤ o.max_total_response_bytes)

-- The three limits are numbers of 64 bits.
abbrev pub Fits : QueryOptions → Type 0
Fits o = (o.max_rows < 2 ^ 64) × (o.max_cells < 2 ^ 64) × (o.max_total_response_bytes < 2 ^ 64)

abbrev pub IsSound : Bytes → Bytes → QueryOptions → Run → Type 0
IsSound u token o w =
    AreConfined u token w.session.instance_url w.session.request w.sent
    × AreWithin o w.session.options w.session.rows w.session.cells w.session.total_response_bytes

abbrev pub Keeps : {A : Type 0} → (Run → Type 0) → M A → Type 0
Keeps P m = (w : Run) → P w → P (m w).1

-- `v` with all that `IsSound` reads as it is in `w`.
abbrev pub patch : Run → Run → Run
patch w v = record v {
  sent = w.sent;
  session = record v.session {
    options = w.session.options;
    instance_url = w.session.instance_url;
    request = w.session.request;
    total_response_bytes = w.session.total_response_bytes;
    rows = w.session.rows;
    cells = w.session.cells;
  };
}

pub patched-IsSound :
    (u token : Bytes) (o : QueryOptions) (w v : Run)
    → v ≡ patch w v
    → IsSound u token o w
    → IsSound u token o v
patched-IsSound u token o w v e h = subst (IsSound u token o) (sym e) h

pub bind-Keeps :
    {A B : Type 0} (P Q : Run → Type 0) (x : Result QueryError A × Run) (f : A → M B)
    → Q x.1
    → ((w : Run) → Q w → P w)
    → ((a : A) (w : Run) → Q w → P (f a w).1)
    → P (bind_result x f).1
bind-Keeps P Q (ok a, w) f q weak k = k a w q
bind-Keeps P Q (err e, w) f q weak k = weak w q

pub then-Keeps :
    {A B : Type 0} (P : Run → Type 0) (x : Result QueryError A × Run) (f : A → M B)
    → P x.1
    → ((a : A) → Keeps P (f a))
    → P (bind_result x f).1
then-Keeps P (ok a, w) f p k = k a w p
then-Keeps P (err e, w) f p k = p
