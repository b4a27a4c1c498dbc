-- ===== src/Native/Transport/Limits.antt =====
-- src/libcurl_transport.cpp: how much a transfer can bring.
use duckdb_data.Native.Codec.{Headers}
use duckdb_data.Native.Transport.{
  TransferState, overflows, write_body, assign_header, trim_line_end, trim_blanks, keep_header,
  read_header, write_header, transfer_progress, TransferCallback, body_block, header_block,
  progress, call_back, call_all,
}
use duckdb_data.Base.{
  ℕ, zero, suc, ◌-◌, ◌*◌, ◌≤◌, ◌<◌, min, ◌≡◌, sym, subst, Bool, not, ◌&&◌, ◌||◌, Option, none, some,
  List, [], ◌∷◌, map, arith, ltb, leb, if◌then◌else◌, if-holds, length, take, length-append, All,
  Bytes, codes, bytes_eq, is_empty, bytes_eq_iff, starts_with, within, to_lower, cut,
}

length-take : (n : ℕ) (s : Bytes) → length (take n s) ≤ n
length-take zero s = omega arith
length-take (suc n) [] = omega arith
length-take (suc n) (c ∷ s) = omega (arith, length-take n s)

-- A header that is kept.
abbrev pub IsShortHeader : Bytes × Bytes → Type 0
IsShortHeader (key, value) = (length key ≤ 256) × (length value ≤ 8192)

-- Headers to which one at most was added.
abbrev IsGrown : Headers → Headers → Type 0
IsGrown old headers = All IsShortHeader headers × (length headers ≤ suc (length old))

-- A state within its bounds.
abbrev pub IsWithin : ℕ → TransferState → Type 0
IsWithin limit t =
    (t.limit ≡ limit)
    × (length t.body ≤ limit)
    × All IsShortHeader t.headers
    × (length t.headers ≤ t.header_count)
    × (t.header_count ≤ 64)
    × (t.header_bytes ≤ 64 * 1024)

assign_header-IsGrown :
    (key value : Bytes) (headers : Headers)
    → IsShortHeader (key, value)
    → All IsShortHeader headers
    → IsGrown headers (assign_header key value headers)
unfolding assign_header
assign_header-IsGrown key value [] p all = ((p, tt), omega arith)
assign_header-IsGrown key value ((k, v) ∷ headers) p (q, all) =
    if-holds (IsGrown ((k, v) ∷ headers)) (bytes_eq k key) _ _
      (λ same. (
        (
          ((let e = (bytes_eq_iff k key).0 same in subst (λ x. length x ≤ 256) (sym e) p.0), p.1),
          all,
        ),
        omega arith,
      ))
      (λ other.
        let rest = assign_header-IsGrown key value headers p all in
        ((q, rest.0), omega (arith, rest.1)))

keep_header-IsGrown :
    (key value : Bytes) (headers : Headers)
    → All IsShortHeader headers
    → IsGrown headers (keep_header key value headers)
keep_header-IsGrown key value headers all =
    if-holds (IsGrown headers) (leb (length key) 256 && leb (length value) 8192) _ _
      (λ short.
        assign_header-IsGrown key value headers (ground (arith, short), ground (arith, short)) all)
      (λ long. (all, omega arith))

read_header-IsGrown :
    (line : Bytes) (headers : Headers)
    → All IsShortHeader headers
    → IsGrown headers (read_header line headers)
unfolding read_header
read_header-IsGrown line headers all = at_colon (cut (codes ":") line)
  where
    at_colon :
        (parts : Option (Bytes × Bytes))
        → IsGrown headers (elim parts [
          | none ↦ headers
          | some (key, value) ↦
              if is_empty key
              then headers
              else keep_header (map to_lower key) (trim_blanks value) headers
        ])
    at_colon none = (all, omega arith)
    at_colon (some (key, value)) =
        if-holds (IsGrown headers) (is_empty key) _ _ (λ empty. (all, omega arith))
          (λ named. keep_header-IsGrown (map to_lower key) (trim_blanks value) headers all)

write_body-IsWithin :
    (limit size count : ℕ) (block : Bytes) (t : TransferState)
    → IsWithin limit t
    → IsWithin limit (write_body size count block t).0
unfolding write_body
write_body-IsWithin limit size count block t (l, b, all, fewer, most, bytes) =
    if-holds (λ (step : TransferState × Option ℕ). IsWithin limit step.0)
      (overflows size count || ltb (t.limit - min (length t.body) t.limit) (size * count)) _ _
      (λ too_large. (l, b, all, fewer, most, bytes))
      (λ fits. (
        l,
        (let cut_off = length-take (size * count) block in
            let sum = length-append t.body (take (size * count) block) in
            let room : size * count ≤ t.limit - min (length t.body) t.limit =
              ground (arith, fits) in
            omega (arith, cut_off, sum, room, l, b)),
        all,
        fewer,
        most,
        bytes,
      ))

write_header-IsWithin :
    (limit size count : ℕ) (block : Bytes) (t : TransferState)
    → IsWithin limit t
    → IsWithin limit (write_header size count block t).0
unfolding write_header
write_header-IsWithin limit size count block t (l, b, all, fewer, most, bytes) =
    let holds = λ (step : TransferState × ℕ). IsWithin limit step.0 in
    let amount = size * count in
    let line = take amount block in
    if-holds holds (overflows size count) _ _ (λ too_large. (l, b, all, fewer, most, bytes))
      (λ fits.
        if-holds holds (starts_with (codes "HTTP/") line) _ _
          (λ status_line. (l, b, tt, omega arith, omega arith, omega arith))
          (λ header_line.
            if-holds holds
              (ltb 8192 amount
                || ltb (64 * 1024 - min t.header_bytes (64 * 1024)) amount
                || leb 64 t.header_count)
              _ _ (λ full. (l, b, all, fewer, most, bytes))
              (λ room.
                let grown = read_header-IsGrown (trim_line_end line) t.headers all in
                let under : t.header_count < 64 = ground (arith, room) in
                let free : amount ≤ 64 * 1024 - min t.header_bytes (64 * 1024) =
                  ground (arith, room) in
                (
                  l,
                  b,
                  grown.0,
                  omega (arith, grown.1, fewer),
                  omega (arith, under),
                  omega (arith, free, bytes),
                ))))

transfer_progress-IsWithin :
    (limit : ℕ) (asked : Option Bool) (t : TransferState)
    → IsWithin limit t
    → IsWithin limit (transfer_progress asked t).0
unfolding transfer_progress
transfer_progress-IsWithin limit none t within = within
transfer_progress-IsWithin limit (some asked) t within =
    if-holds (λ (step : TransferState × ℕ). IsWithin limit step.0) (not t.cleanup_request && asked)
      _ _ (λ stops. within) (λ goes_on. within)

call_back-IsWithin :
    (limit : ℕ) (c : TransferCallback) (t : TransferState)
    → IsWithin limit t
    → IsWithin limit (call_back c t)
call_back-IsWithin limit (body_block size count block) t within =
    write_body-IsWithin limit size count block t within
call_back-IsWithin limit (header_block size count block) t within =
    write_header-IsWithin limit size count block t within
call_back-IsWithin limit (progress asked) t within = transfer_progress-IsWithin limit asked t within

pub call_all-IsWithin :
    (limit : ℕ) (callbacks : List TransferCallback) (t : TransferState)
    → IsWithin limit t
    → IsWithin limit (call_all callbacks t)
unfolding call_all
call_all-IsWithin limit [] t within = within
call_all-IsWithin limit (c ∷ callbacks) t within =
    call_all-IsWithin limit callbacks (call_back c t) (call_back-IsWithin limit c t within)
