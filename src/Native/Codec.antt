-- ===== src/Native/Codec.antt =====
-- src/native_runtime.cpp: JsonQueryResponseCodec::Decode. The headers' names are in lower case.
pub mod Shape
use duckdb_data.Json.{Json}
use duckdb_data.Query.Types.{
  Cell, HttpResponse, ColumnMetadata, ResultChunk, QueryState, running, complete, query_failed,
  QueryResponse, Decoded, decoded, needs_reauth, decode_error,
}
use duckdb_data.Native.Values.{
  CodecError, codec_reauth_required, request_failed, invalid_row, unknown_shape, RawJson, text_at,
  parse, has_invalid_session_code, is_text, optional_unsigned, json_scalar,
}
use duckdb_data.Native.Columns.{decode_columns}
use duckdb_data.Base.{
  ℕ, Bool, true, false, ◌&&◌, ◌||◌, Option, none, some, List, [], ◌∷◌, ltb, leb, ◌==◌,
  if◌then◌else◌, Bytes, codes, bytes_eq, contains, cut, ◌>>=◌, ◌>>◌, throw_if, or_throw, Result, ok,
  err,
}

abbrev pub Headers : Type 0
Headers = List (Bytes × Bytes)

unfoldable pub header_at : Bytes → Headers → Option Bytes
header_at name [] = none
header_at name ((key, value) ∷ headers) =
    let rest = header_at name headers in if bytes_eq key name then some value else rest

abbrev pub empty_response : QueryResponse
empty_response = record {
  state = running;
  query_id = [];
  chunk_count = 0;
  row_count = 0;
  has_chunk_count = false;
  has_row_count = false;
  returned_rows = 0;
  has_returned_rows = false;
  metadata = [];
  chunk = record { rows = []; next_url = [] };
}

abbrev pub submitted : Bytes → QueryResponse
submitted query_id = record empty_response { query_id = query_id }

-- A query that was submitted, if there is an identifier.
abbrev pub submitted_as : Bytes → Option QueryResponse
submitted_as [] = none
submitted_as (c ∷ query_id) = some (submitted (c ∷ query_id))

-- Up to the first byte of `stops`: substr to find_first_of.
abbrev pub up_to : Bytes → Bytes → Bytes
up_to stops [] = []
up_to stops (c ∷ text) = let rest = up_to stops text in if contains stops c then [] else c ∷ rest

unfoldable pub submitted_by_location : Option Bytes → Option QueryResponse
unfolding cut contains
submitted_by_location none = none
submitted_by_location (some location) = elim (cut (codes "/api/v3/query/") location) [
  | none ↦ none
  | some (before, behind) ↦ submitted_as (up_to (codes "/?#") behind)
]

abbrev pub or_else : Option QueryResponse → Option QueryResponse → Option QueryResponse
or_else none other = other
or_else (some response) other = some response

-- The value of a count that may be missing.
abbrev pub count_or_zero : Option ℕ → ℕ
count_or_zero none = 0
count_or_zero (some n) = n

abbrev pub is_present : Option ℕ → Bool
is_present none = false
is_present (some n) = true

abbrev pub completion_state : Bytes → QueryState
completion_state state =
    if bytes_eq state (codes "FINISHED") || bytes_eq state (codes "RESULTS_PRODUCED")
    then complete
    else if bytes_eq state (codes "RUNNING")
    then running
    else query_failed

module _ {V : Type 0} (raw : RawJson V) where
  -- A status header; an exception on it is dropped.
  unfoldable pub submitted_by_status : Option Bytes → Option QueryResponse
  unfolding parse
  submitted_by_status none = none
  submitted_by_status (some text) = elim (parse raw text) [
    | err e ↦ none
    | ok root ↦ elim (text_at raw root (codes "queryId")) [
      | none ↦ none
      | some query_id ↦ submitted_as query_id
    ]
  ]

  unfoldable pub submitted_by_headers : Headers → Option QueryResponse
  unfolding header_at submitted_by_status submitted_by_location
  submitted_by_headers headers =
      or_else (submitted_by_status (header_at (codes "x-hyperdb-status") headers)) (
        or_else (submitted_by_status (header_at (codes "status") headers))
          (submitted_by_location (header_at (codes "location") headers)))

  unfoldable pub decode_cells : List V → Result CodecError (List Cell)
  unfolding json_scalar
  decode_cells [] = ok []
  decode_cells (v ∷ vs) = do
    cell ← if raw.json.is_null v then ok none else (do text ← json_scalar raw v; ok (some text))
    cells ← decode_cells vs
    ok (cell ∷ cells)

  unfoldable pub decode_rows : List V → Result CodecError (List (List Cell))
  unfolding decode_cells
  decode_rows [] = ok []
  decode_rows (v ∷ vs) = do
    elements ← or_throw (raw.json.elements v) invalid_row
    row ← decode_cells elements
    rows ← decode_rows vs
    ok (row ∷ rows)

  abbrev pub elements_at : V → Bytes → Option (List V)
  elements_at object name = elim (raw.json.get object name) [
    | none ↦ none
    | some v ↦ raw.json.elements v
  ]

  -- The object that has the columns: "metadata", or the root.
  abbrev pub metadata_object : V → V
  metadata_object root = elim (raw.json.get root (codes "metadata")) [
    | none ↦ root
    | some v ↦ if raw.json.is_obj v then v else root
  ]

  abbrev pub columns_of : Option (List V) → Result CodecError (List ColumnMetadata)
  columns_of none = ok []
  columns_of (some columns) = decode_columns raw columns

  -- A response with its completion status.
  unfoldable pub decode_status : V → Bytes → Bytes → Result CodecError QueryResponse
  unfolding optional_unsigned
  decode_status root query_id state = do
    chunk_count ← optional_unsigned raw root (codes "chunkCount")
    row_count ← optional_unsigned raw root (codes "rowCount")
    ok (record (submitted query_id) {
      state = completion_state state;
      chunk_count = count_or_zero chunk_count;
      has_chunk_count = is_present chunk_count;
      row_count = count_or_zero row_count;
      has_row_count = is_present row_count;
    })

  abbrev pub text_or_empty : Option Bytes → Bytes
  text_or_empty none = []
  text_or_empty (some text) = text

  -- A response with rows, or with columns alone.
  abbrev pub decode_data :
      V → List ColumnMetadata → Option (List V) → Result CodecError QueryResponse
  decode_data root [] none = err unknown_shape
  decode_data root (c ∷ metadata) none =
      ok (record empty_response { state = complete; metadata = c ∷ metadata })
  decode_data root metadata (some data_rows) = do
    rows ← decode_rows data_rows
    returned_rows ← optional_unsigned raw root (codes "returnedRows")
    ok (record empty_response {
      state = complete;
      metadata = metadata;
      chunk = record { rows = rows; next_url = text_or_empty (text_at raw root (codes "next")) };
      has_returned_rows = is_present returned_rows;
      returned_rows = count_or_zero returned_rows;
    })

  unfoldable pub decode_rows_or_columns : V → Result CodecError QueryResponse
  unfolding decode_columns decode_rows optional_unsigned
  decode_rows_or_columns root = do
    metadata ← columns_of (elements_at (metadata_object root) (codes "columns"))
    decode_data root metadata (elements_at root (codes "data"))

  -- The shapes of a body, in the order in which they are tried.
  abbrev pub decode_root : V → Option Bytes → Bytes → Result CodecError QueryResponse
  decode_root root (some state) query_id = decode_status root query_id state
  decode_root root none [] = decode_rows_or_columns root
  decode_root root none (c ∷ query_id) = ok (submitted (c ∷ query_id))

  unfoldable pub decode_body : Bytes → Result CodecError QueryResponse
  unfolding parse decode_status decode_rows_or_columns
  decode_body body = do
    root ← parse raw body
    decode_root root (text_at raw root (codes "completionStatus"))
        (text_or_empty (text_at raw root (codes "queryId")))

  unfoldable pub decode_response : Headers → HttpResponse → Result CodecError QueryResponse
  unfolding has_invalid_session_code submitted_by_headers decode_body
  decode_response headers response = do
    throw_if
        (response.status == 401
          || (response.status == 403 && has_invalid_session_code raw response.body))
        codec_reauth_required
    throw_if (ltb response.status 200 || leb 300 response.status) request_failed
    elim (submitted_by_headers headers) [
      | some answer ↦ ok answer
      | none ↦ decode_body response.body
    ]

  -- What the session sees of it.
  abbrev pub seen : Result CodecError QueryResponse → Decoded
  seen (ok response) = decoded response
  seen (err codec_reauth_required) = needs_reauth
  seen (err e) = decode_error
