-- ===== src/Native/Transport/Sent.antt =====
-- src/libcurl_transport.cpp: what a response of Send tells of the request and the transfer.
use duckdb_data.Query.Types.{HttpRequest}
use duckdb_data.Native.Transport.{TransferState, Curl, curl_ok, new_transfer}
use duckdb_data.Native.Transport.Limits.{IsWithin}
use duckdb_data.Native.Transport.Taken.{AreTaken, body_of}
use duckdb_data.Base.{◌≡◌, some}

-- What Send asks of libcurl and of the transfer.
abbrev pub IsSent : Curl → HttpRequest → TransferState → Type 0
IsSent curl request t =
    IsWithin request.max_response_bytes t
    × (t.body ≡ body_of (curl.callbacks request))
    × AreTaken (curl.callbacks request) (new_transfer request)
    × (curl.result request ≡ curl_ok)
    × (curl.status request ≡ some t.status)
