-- ===== src/Native/Examples.antt =====
-- The theorems on the decoder and on the transport, applied.
use duckdb_data.Query.Types.{HttpRequest, QueryResponse, ColumnMetadata, complete}
use duckdb_data.Native.Values.{RawJson}
use duckdb_data.Native.Codec.{Headers, decode_response}
use duckdb_data.Native.Codec.Shape.{IsShaped, decode_response-IsShaped}
use duckdb_data.Native.Transport.{Curl, curl_ok, TransferState, body_block, header_block, progress}
use duckdb_data.Base.{
  ◌≤◌, ◌<◌, refl, Bool, true, false, Option, none, some, List, [], ◌∷◌, if◌then◌else◌, Bytes, codes,
  bytes_eq, to_lower,
}

-- A document, its lists and its scalars.
data Value : Type 0 where
  text digits : Bytes → Value
  flag : Bool → Value
  root columns column data_rows row : Value

abbrev members_of : Value → List (Bytes × Value)
members_of root = (codes "columns", columns) ∷ (codes "data", data_rows) ∷ []
members_of column =
    (codes "name", text (codes "price"))
    ∷ (codes "type", text (codes "Numeric"))
    ∷ (codes "nullable", flag true)
    ∷ (codes "precision", digits (codes "10"))
    ∷ (codes "scale", digits (codes "2"))
    ∷ []
members_of _ = []

abbrev elements_of : Value → Option (List Value)
elements_of columns = some (column ∷ [])
elements_of data_rows = some (row ∷ [])
elements_of row = some (digits (codes "1.5") ∷ [])
elements_of _ = none

abbrev text_of : Value → Option Bytes
text_of (text t) = some t
text_of _ = none

abbrev digits_of : Value → Option Bytes
digits_of (digits t) = some t
digits_of _ = none

abbrev flag_of : Value → Option Bool
flag_of (flag b) = some b
flag_of _ = none

abbrev is_root_or_column : Value → Bool
is_root_or_column root = true
is_root_or_column column = true
is_root_or_column _ = false

abbrev find_member : Bytes → List (Bytes × Value) → Option Value
find_member name [] = none
find_member name ((key, value) ∷ members) =
    let rest = find_member name members in if bytes_eq key name then some value else rest

abbrev reader : RawJson Value
reader = record {
  json = record {
    read = λ body. some root;
    is_obj = is_root_or_column;
    members = λ v. [];
    elements = elements_of;
    get = λ v name. find_member name (members_of v);
    as_str = text_of;
    as_uint = λ v. none;
    as_bool = flag_of;
    is_null = λ v. false;
  };
  read_raw = λ body. some root;
  as_raw = digits_of;
  other_number = λ v. none;
}

abbrev price : ColumnMetadata
price = record {
  name = codes "price";
  column_type = codes "Numeric";
  nullable = true;
  has_precision = true;
  has_scale = true;
  precision = 10;
  scale = 2;
}

abbrev answer : QueryResponse
answer = record {
  state = complete;
  query_id = [];
  chunk_count = 0;
  row_count = 0;
  has_chunk_count = false;
  has_row_count = false;
  returned_rows = 0;
  has_returned_rows = false;
  metadata = price ∷ [];
  chunk = record { rows = (some (codes "1.5") ∷ []) ∷ []; next_url = [] };
}

decode_response-IsShaped_example : (200 ≤ 200) × (200 < 300) × IsShaped answer
unfolding decode_response bytes_eq to_lower
decode_response-IsShaped_example =
    decode_response-IsShaped reader [] (record { status = 200; body = codes "{}" }) answer refl

abbrev sent_headers : Headers
sent_headers = (codes "Accept", codes "*/*") ∷ []

abbrev request : HttpRequest
request = record {
  method = codes "GET";
  url = codes "https://t.c360a.salesforce.com/api";
  authorization = [];
  content_type = [];
  accept = [];
  body = [];
  timeout_ms = 1000;
  follow_redirects = false;
  max_response_bytes = 8;
  cleanup_request = false;
}

abbrev curl : Curl
curl = record {
  is_prepared = λ q. true;
  callbacks = λ q.
      header_block 1 12 (codes "HTTP/1.1 200")
      ∷ header_block 1 9 (codes "Status: x")
      ∷ progress (some false)
      ∷ body_block 1 5 (codes "hello")
      ∷ [];
  result = λ q. curl_ok;
  status = λ q. some 200;
}

abbrev transfer : TransferState
transfer = record {
  status = 200;
  headers = (codes "status", codes "x") ∷ [];
  body = codes "hello";
  limit = 8;
  cleanup_request = false;
  exceeded_limit = false;
  exceeded_headers = false;
  cancelled = false;
  header_count = 1;
  header_bytes = 9;
}
