-- ===== src/Query/Types.antt =====
-- src/include/data360/query_api.hpp and the session of src/query_api.cpp, less its three pointers.
use duckdb_data.Base.{
  ℕ, ◌+◌, ◌-◌, ◌*◌, ◌%◌, ◌^◌, Bool, true, false, Option, List, Bytes, Result, ok, err,
}

abbrev pub Cell : Type 0
Cell = Option Bytes

-- The headers are the four that the session sets; `authorization` never changes.
pub record HttpRequest : Type 0 where
  pub method : Bytes
  pub url : Bytes
  pub authorization : Bytes
  pub content_type : Bytes
  pub accept : Bytes
  pub body : Bytes
  pub timeout_ms : ℕ
  pub follow_redirects : Bool
  pub max_response_bytes : ℕ
  pub cleanup_request : Bool

pub record HttpResponse : Type 0 where
  pub status : ℕ
  pub body : Bytes

pub record ColumnMetadata : Type 0 where
  pub name : Bytes
  pub column_type : Bytes
  pub nullable : Bool
  pub has_precision : Bool
  pub has_scale : Bool
  pub precision : ℕ
  pub scale : ℕ

pub record ResultChunk : Type 0 where
  pub rows : List (List Cell)
  pub next_url : Bytes

pub data QueryState : Type 0 where
  running complete query_failed : QueryState

pub record QueryResponse : Type 0 where
  pub state : QueryState
  pub query_id : Bytes
  pub chunk_count : ℕ
  pub row_count : ℕ
  pub has_chunk_count : Bool
  pub has_row_count : Bool
  pub returned_rows : ℕ
  pub has_returned_rows : Bool
  pub metadata : List ColumnMetadata
  pub chunk : ResultChunk

pub record QueryOptions : Type 0 where
  pub request_timeout_ms : ℕ
  pub overall_timeout_ms : ℕ
  pub poll_interval_ms : ℕ
  pub max_chunks : ℕ
  pub cleanup_timeout_ms : ℕ
  pub max_rows : ℕ
  pub max_columns : ℕ
  pub max_cells : ℕ
  pub max_total_response_bytes : ℕ

pub data QueryMode : Type 0 where
  numbered_v3 direct_legacy : QueryMode

pub record Session : Type 0 where
  pub options : QueryOptions
  pub instance_url : Bytes
  pub request : HttpRequest
  pub started_at_ms : ℕ
  pub total_response_bytes : ℕ
  pub mode : QueryMode
  pub metadata : List ColumnMetadata
  pub query_id : Bytes
  pub has_expected_chunks : Bool
  pub expected_chunks : ℕ
  pub has_expected_rows : Bool
  pub expected_rows : ℕ
  pub next_chunk_index : ℕ
  pub buffered_direct : Option QueryResponse
  pub next_url : Bytes
  pub visited_urls : List Bytes
  pub fetched_chunks : ℕ
  pub rows : ℕ
  pub cells : ℕ
  pub reconciled : Bool
  pub terminal : Bool
  pub arrow_response_outstanding : Bool

-- The exceptions, one constructor for each message.
pub data QueryError : Type 0 where
  reauth_required query_cancelled query_timed_out transport_failed : QueryError
  cumulative_limit decoding_failed invalid_query_id identity_changed : QueryError
  chunk_retrieval_failed schema_changed too_many_chunks chunk_row_mismatch : QueryError
  materialization_limit invalid_row_width row_count_mismatch chunk_count_mismatch : QueryError
  chain_incomplete unsafe_chunk_url not_available not_reported cursor_terminal : QueryError
  not_numbered not_expected invalid_options empty_sql incomplete_credentials : QueryError
  untrusted_url invalid_async_response not_complete invalid_completed_response : QueryError
  metadata_failed numeric_incomplete too_many_columns : QueryError
  -- No exception of the source: the rounds given to a loop ran out.
  out_of_rounds : QueryError

-- What the codec makes of a response: its value, ReauthRequiredException, or any other exception.
pub data Decoded : Type 0 where
  decoded : QueryResponse → Decoded
  needs_reauth decode_error : Decoded

-- The transport, the codec and the runtime hooks. Each call is answered at its turn, so what they
-- give may change in any way from one call to the next. `none` is an exception of the transport.
-- The clock is also told how long the session has slept so far.
pub record Environment : Type 0 where
  pub is_cancelled : ℕ → Bool
  pub now_ms : ℕ → ℕ → ℕ
  pub respond : ℕ → HttpRequest → Option HttpResponse
  pub decode : ℕ → HttpResponse → Decoded

-- The session with the turn reached, the time slept, and the requests sent, the last one first.
pub record Run : Type 0 where
  pub session : Session
  pub turn : ℕ
  pub slept_ms : ℕ
  pub sent : List HttpRequest

-- uint64_t.
abbrev pub add64 : ℕ → ℕ → ℕ
add64 a b = (a + b) % 2 ^ 64

abbrev pub sub64 : ℕ → ℕ → ℕ
sub64 a b = (a + 2 ^ 64 - b) % 2 ^ 64

abbrev pub mul64 : ℕ → ℕ → ℕ
mul64 a b = a * b % 2 ^ 64

-- A call of the session: a result or an exception, and what it leaves behind either way.
abbrev pub M : Type 0 → Type 0
M A = Run → Result QueryError A × Run

abbrev pub pure : {A : Type 0} → A → M A
pure a w = (ok a, w)

abbrev pub throw : {A : Type 0} → QueryError → M A
throw e w = (err e, w)

abbrev pub bind_result :
    {A B : Type 0} → Result QueryError A × Run → (A → M B) → Result QueryError B × Run
bind_result (ok a, w) f = f a w
bind_result (err e, w) f = (err e, w)

infixl 5 ◌>>=◌ ◌>>◌
abbrev pub ◌>>=◌ : {A B : Type 0} → M A → (A → M B) → M B
◌>>=◌ m f w = bind_result (m w) f

abbrev pub ◌>>◌ : {B : Type 0} → M (Unit {0}) → M B → M B
m >> k = m >>= λ _. k

abbrev pub throw_if : Bool → QueryError → M (Unit {0})
throw_if true e = throw e
throw_if false e = pure tt

abbrev pub when : Bool → M (Unit {0}) → M (Unit {0})
when true body = body
when false body = pure tt

abbrev pub get : M Session
get w = (ok w.session, w)

abbrev pub modify : (Session → Session) → M (Unit {0})
modify f w = (ok tt, record w { session = f w.session })
