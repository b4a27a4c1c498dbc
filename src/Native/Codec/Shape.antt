-- ===== src/Native/Codec/Shape.antt =====
-- src/native_runtime.cpp: what a decoded response is like.
use duckdb_data.Query.Types.{HttpResponse, ColumnMetadata, QueryResponse, complete}
use duckdb_data.Native.Values.{
  CodecError, request_failed, codec_reauth_required, has_invalid_session_code, text_at, parse,
  optional_unsigned, RawJson,
}
use duckdb_data.Native.Codec.{
  header_at, Headers, submitted_as, submitted_by_location, submitted_by_status,
  submitted_by_headers, or_else, up_to, decode_status, decode_data, decode_rows,
  decode_rows_or_columns, columns_of, elements_at, metadata_object, decode_root, decode_body,
  decode_response,
}
use duckdb_data.Base.{
  ◌≤◌, ◌<◌, ◌≡◌, refl, subst, ◌⊎◌, inl, inr, ◌&&◌, ◌||◌, Option, none, some, List, [], ◌∷◌, arith,
  ltb, leb, ◌==◌, All, Bytes, codes, cut, >>=-eq-ok, throw_if-eq-ok, ok-injective, Result, ok, err,
}
use duckdb_data.Native.Columns.Bounds.{IsColumn, decode_columns-IsColumn}

-- Only a complete response has rows, columns or a further URL.
abbrev pub IsShaped : QueryResponse → Type 0
IsShaped r =
    All IsColumn r.metadata
    × ((r.state ≡ complete) ⊎ ((r.metadata ≡ []) × (r.chunk.rows ≡ []) × (r.chunk.next_url ≡ [])))

abbrev IsShapedIfAny : Option QueryResponse → Type 0
IsShapedIfAny none = Unit
IsShapedIfAny (some r) = IsShaped r

submitted_as-IsShapedIfAny : (query_id : Bytes) → IsShapedIfAny (submitted_as query_id)
submitted_as-IsShapedIfAny [] = tt
submitted_as-IsShapedIfAny (c ∷ query_id) = (tt, inr (refl, refl, refl))

submitted_by_location-IsShapedIfAny :
    (location : Option Bytes) → IsShapedIfAny (submitted_by_location location)
unfolding submitted_by_location
submitted_by_location-IsShapedIfAny none = tt
submitted_by_location-IsShapedIfAny (some location) =
    after_cut (cut (codes "/api/v3/query/") location)
  where
    after_cut :
        (parts : Option (Bytes × Bytes))
        → IsShapedIfAny (elim parts [
          | none ↦ none
          | some (before, behind) ↦ submitted_as (up_to (codes "/?#") behind)
        ])
    after_cut none = tt
    after_cut (some (before, behind)) = submitted_as-IsShapedIfAny (up_to (codes "/?#") behind)

or_else-IsShapedIfAny :
    (first other : Option QueryResponse)
    → IsShapedIfAny first
    → IsShapedIfAny other
    → IsShapedIfAny (or_else first other)
or_else-IsShapedIfAny none other p q = q
or_else-IsShapedIfAny (some r) other p q = p

module _ {V : Type 0} (raw : RawJson V) where
  decode_status-IsShaped :
      (root : V) (query_id state : Bytes) (r : QueryResponse)
      → decode_status raw root query_id state ≡ ok r
      → IsShaped r
  unfolding decode_status
  decode_status-IsShaped root query_id state r h =
      let (chunks, e, h1) = >>=-eq-ok (optional_unsigned raw root (codes "chunkCount")) _ h in
      let (rows, g, h2) = >>=-eq-ok (optional_unsigned raw root (codes "rowCount")) _ h1 in
      subst IsShaped (ok-injective h2) (tt, inr (refl, refl, refl))

  columns_of-IsColumn :
      (columns : Option (List V)) (cs : List ColumnMetadata)
      → columns_of raw columns ≡ ok cs
      → All IsColumn cs
  columns_of-IsColumn none cs h = subst (All IsColumn) (ok-injective h) tt
  columns_of-IsColumn (some vs) cs h = decode_columns-IsColumn raw vs cs h

  decode_data-IsShaped :
      (root : V) (metadata : List ColumnMetadata) (data_rows : Option (List V)) (r : QueryResponse)
      → All IsColumn metadata
      → decode_data raw root metadata data_rows ≡ ok r
      → IsShaped r
  decode_data-IsShaped root [] none r m h = cc
  decode_data-IsShaped root (c ∷ metadata) none r m h =
      subst IsShaped (ok-injective h) (m, inl refl)
  decode_data-IsShaped root metadata (some data_rows) r m h =
      let (rows, e, h1) = >>=-eq-ok (decode_rows raw data_rows) _ h in
      let (returned, g, h2) = >>=-eq-ok (optional_unsigned raw root (codes "returnedRows")) _ h1 in
      subst IsShaped (ok-injective h2) (m, inl refl)

  decode_rows_or_columns-IsShaped :
      (root : V) (r : QueryResponse) → decode_rows_or_columns raw root ≡ ok r → IsShaped r
  unfolding decode_rows_or_columns
  decode_rows_or_columns-IsShaped root r h =
      let columns = elements_at raw (metadata_object raw root) (codes "columns") in
      let (metadata, e, h1) = >>=-eq-ok (columns_of raw columns) _ h in
      decode_data-IsShaped root metadata _ r (columns_of-IsColumn columns metadata e) h1

  decode_root-IsShaped :
      (root : V) (state : Option Bytes) (query_id : Bytes) (r : QueryResponse)
      → decode_root raw root state query_id ≡ ok r
      → IsShaped r
  decode_root-IsShaped root (some state) query_id r h =
      decode_status-IsShaped root query_id state r h
  decode_root-IsShaped root none [] r h = decode_rows_or_columns-IsShaped root r h
  decode_root-IsShaped root none (c ∷ query_id) r h =
      subst IsShaped (ok-injective h) (tt, inr (refl, refl, refl))

  decode_body-IsShaped :
      (body : Bytes) (r : QueryResponse) → decode_body raw body ≡ ok r → IsShaped r
  unfolding decode_body
  decode_body-IsShaped body r h =
      let (root, e, h1) = >>=-eq-ok (parse raw body) _ h in decode_root-IsShaped root _ _ r h1

  headers_or_body :
      (by_headers : Option QueryResponse) (body : Bytes) (r : QueryResponse)
      → IsShapedIfAny by_headers
      → (elim by_headers [ some answer ↦ ok answer | none ↦ decode_body raw body ]) ≡ ok r
      → IsShaped r
  headers_or_body none body r p h = decode_body-IsShaped body r h
  headers_or_body (some answer) body r p h = subst IsShaped (ok-injective h) p

  submitted_by_status-IsShapedIfAny :
      (header : Option Bytes) → IsShapedIfAny (submitted_by_status raw header)
  unfolding submitted_by_status
  submitted_by_status-IsShapedIfAny none = tt
  submitted_by_status-IsShapedIfAny (some text) = of_document (parse raw text)
    where
      of_query_id :
          (query_id : Option Bytes)
          → IsShapedIfAny (elim query_id [ none ↦ none | some id ↦ submitted_as id ])
      of_query_id none = tt
      of_query_id (some id) = submitted_as-IsShapedIfAny id

      of_document :
          (document : Result CodecError V)
          → IsShapedIfAny (elim document [
            | err e ↦ none
            | ok root ↦ elim (text_at raw root (codes "queryId")) [
              | none ↦ none
              | some id ↦ submitted_as id
            ]
          ])
      of_document (err e) = tt
      of_document (ok root) = of_query_id (text_at raw root (codes "queryId"))

  submitted_by_headers-IsShapedIfAny :
      (headers : Headers) → IsShapedIfAny (submitted_by_headers raw headers)
  unfolding submitted_by_headers
  submitted_by_headers-IsShapedIfAny headers =
      let by_status = submitted_by_status raw (header_at (codes "status") headers) in
      let by_location = submitted_by_location (header_at (codes "location") headers) in
      or_else-IsShapedIfAny (submitted_by_status raw (header_at (codes "x-hyperdb-status") headers))
        (or_else by_status by_location)
        (submitted_by_status-IsShapedIfAny (header_at (codes "x-hyperdb-status") headers))
        (or_else-IsShapedIfAny by_status by_location
          (submitted_by_status-IsShapedIfAny (header_at (codes "status") headers))
          (submitted_by_location-IsShapedIfAny (header_at (codes "location") headers)))

  -- Whatever the headers and the document, Decode gives a response only for a status from 200 to
  -- 299. A column in it has precision and scale both or neither, and has them only when its type is
  -- numeric, the precision is from 1 to 38 and the scale is not above it. A response that is not
  -- complete has no columns, no rows and no further URL.
  pub decode_response-IsShaped :
      (headers : Headers) (response : HttpResponse) (r : QueryResponse)
      → decode_response raw headers response ≡ ok r
      → (200 ≤ response.status) × (response.status < 300) × IsShaped r
  unfolding decode_response
  decode_response-IsShaped headers response r h =
      let (a, h1) =
        throw_if-eq-ok
          (response.status == 401
            || (response.status == 403 && has_invalid_session_code raw response.body))
          codec_reauth_required _ h in
      let (b, h2) =
        throw_if-eq-ok (ltb response.status 200 || leb 300 response.status) request_failed _ h1 in
      (
        ground (arith, b),
        ground (arith, b),
        headers_or_body (submitted_by_headers raw headers) response.body r
            (submitted_by_headers-IsShapedIfAny headers) h2,
      )
