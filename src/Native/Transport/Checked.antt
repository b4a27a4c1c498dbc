-- ===== src/Native/Transport/Checked.antt =====
-- src/libcurl_transport.cpp: what Send asks of a request and its headers.
use duckdb_data.Query.Types.{HttpRequest}
use duckdb_data.Native.Codec.{Headers}
use duckdb_data.Native.Transport.{contains_forbidden, is_sendable, are_sendable_headers, have_room}
use duckdb_data.Base.{
  ℕ, ◌+◌, ◌-◌, ◌^◌, ◌≤◌, ◌<◌, min, ◌≡◌, ◌≢◌, ◌⊎◌, true, false, [], ◌∷◌, arith, length, All, Bytes,
  codes, is_empty, bytes_eq_iff, starts_with, contains,
}

-- No CR, LF or NUL.
abbrev pub HasNoBreaks : Bytes → Type 0
HasNoBreaks = All (λ c. (c ≢ 13) × (c ≢ 10) × (c ≢ 0))

abbrev pub IsSendable : HttpRequest → Type 0
IsSendable q =
    (q.follow_redirects ≡ false)
    × (0 < q.timeout_ms)
    × (q.timeout_ms < 2 ^ 63)
    × (0 < q.max_response_bytes)
    × (length q.body ≤ 1048576)
    × (starts_with (codes "https://") q.url ≡ true)
    × HasNoBreaks q.url
    × ((q.method ≡ codes "GET") ⊎ (q.method ≡ codes "POST") ⊎ (q.method ≡ codes "DELETE"))

-- A header with a name, which has no colon.
abbrev pub IsSendableHeader : Bytes × Bytes → Type 0
IsSendableHeader (key, value) =
    (is_empty key ≡ false) × All (λ c. c ≢ 58) key × HasNoBreaks key × HasNoBreaks value

abbrev pub header_size : Headers → ℕ
header_size [] = 0
header_size ((key, value) ∷ headers) = length key + length value + 4 + header_size headers

absent : (s : Bytes) (x : ℕ) → contains s x ≡ false → All (λ c. c ≢ x) s
unfolding contains
absent [] x h = tt
absent (c ∷ s) x h = (ground (arith, h), absent s x (ground (arith, h)))

without_breaks : (s : Bytes) → contains_forbidden s ≡ false → HasNoBreaks s
unfolding contains
without_breaks [] h = tt
without_breaks (c ∷ s) h = (
  (ground (arith, h), ground (arith, h), ground (arith, h)),
  without_breaks s (ground (arith, h)),
)

pub is_sendable-IsSendable : (q : HttpRequest) → is_sendable q ≡ true → IsSendable q
is_sendable-IsSendable q h = (
  ground (arith, h),
  ground (arith, h),
  ground (arith, h),
  ground (arith, h),
  ground (arith, h),
  ground (arith, h),
  without_breaks q.url (ground (arith, h)),
  ground (
    arith,
    h,
    bytes_eq_iff q.method (codes "GET"),
    bytes_eq_iff q.method (codes "POST"),
    bytes_eq_iff q.method (codes "DELETE"),
  ),
)

pub are_sendable_headers-IsSendableHeader :
    (headers : Headers) → are_sendable_headers headers ≡ true → All IsSendableHeader headers
unfolding are_sendable_headers
are_sendable_headers-IsSendableHeader [] h = tt
are_sendable_headers-IsSendableHeader ((key, value) ∷ headers) h = (
  (
    ground (arith, h),
    absent key 58 (ground (arith, h)),
    without_breaks key (ground (arith, h)),
    without_breaks value (ground (arith, h)),
  ),
  are_sendable_headers-IsSendableHeader headers (ground (arith, h)),
)

pub have_room_size :
    (used : ℕ) (headers : Headers)
    → used ≤ 65536
    → have_room used headers ≡ true
    → used + header_size headers ≤ 65536
unfolding have_room
have_room_size used [] k h = omega (arith, k)
have_room_size used ((key, value) ∷ headers) k h =
    let bytes = length key + length value + 4 in
    let fits : bytes ≤ 65536 - min used 65536 = ground (arith, h) in
    let rest = have_room_size (used + bytes) headers (omega (arith, fits, k)) (ground (arith, h)) in
    omega (arith, rest)
