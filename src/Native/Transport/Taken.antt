-- ===== src/Native/Transport/Taken.antt =====
-- src/libcurl_transport.cpp: what a transfer without a flag set says of its callbacks.
use duckdb_data.Native.Transport.{
  overflows, write_body, write_header, transfer_progress, TransferState, TransferCallback,
  body_block, header_block, progress, call_back, call_all,
}
use duckdb_data.Base.{
  ℕ, ◌-◌, ◌*◌, min, ◌≡◌, refl, sym, ap, ◌∙◌, ◌≢◌, ◌⊎◌, inl, inr, Bool, true, false, ◌||◌, Option,
  none, some, List, [], ◌∷◌, ◌++◌, append-nil, append_assoc, arith, ltb, leb, if-holds, length,
  take, Bytes, codes, starts_with,
}

-- No callback has set a flag.
abbrev pub IsClear : TransferState → Type 0
IsClear t = (t.exceeded_limit ≡ false) × (t.exceeded_headers ≡ false) × (t.cancelled ≡ false)

-- A callback gives libcurl the value with which it goes on: a block's size, or 0 for a progress
-- that sees no cancellation. Only a header block whose size does not fit is refused without a flag.
abbrev pub IsTaken : TransferCallback → TransferState → Type 0
IsTaken (body_block size count block) t = (write_body size count block t).1 ≡ some (size * count)
IsTaken (header_block size count block) t =
    ((write_header size count block t).1 ≡ size * count) ⊎ (overflows size count ≡ true)
IsTaken (progress asked) t =
    ((transfer_progress asked t).1 ≡ 0) × ((asked ≢ some true) ⊎ (t.cleanup_request ≡ true))

abbrev pub AreTaken : List TransferCallback → TransferState → Type 0
AreTaken [] t = Unit
AreTaken (c ∷ callbacks) t = IsTaken c t × AreTaken callbacks (call_back c t)

-- The bytes of the body blocks, in their order.
abbrev pub body_of : List TransferCallback → Bytes
body_of [] = []
body_of (body_block size count block ∷ callbacks) = take (size * count) block ++ body_of callbacks
body_of (_ ∷ callbacks) = body_of callbacks

body_taken :
    (size count : ℕ) (block : Bytes) (t : TransferState)
    → IsClear (write_body size count block t).0
    → IsClear t
      × ((write_body size count block t).1 ≡ some (size * count))
      × ((write_body size count block t).0.body ≡ t.body ++ take (size * count) block)
unfolding write_body
body_taken size count block t clear =
    if-holds
      (λ (step : TransferState × Option ℕ).
        IsClear step.0
        → IsClear t
          × (step.1 ≡ some (size * count))
          × (step.0.body ≡ t.body ++ take (size * count) block))
      (overflows size count || ltb (t.limit - min (length t.body) t.limit) (size * count)) _ _
      (λ too_large c. cc c.0) (λ fits c. (c, refl, refl)) clear

header_taken :
    (size count : ℕ) (block : Bytes) (t : TransferState)
    → IsClear (write_header size count block t).0
    → IsClear t
      × (((write_header size count block t).1 ≡ size * count) ⊎ (overflows size count ≡ true))
      × ((write_header size count block t).0.body ≡ t.body)
unfolding write_header
header_taken size count block t clear =
    let amount = size * count in
    let line = take amount block in
    let holds = λ (step : TransferState × ℕ).
      IsClear step.0
      → IsClear t × ((step.1 ≡ amount) ⊎ (overflows size count ≡ true)) × (step.0.body ≡ t.body) in
    if-holds holds (overflows size count) _ _ (λ too_large c. (c, inr too_large, refl))
      (λ fits.
        if-holds holds (starts_with (codes "HTTP/") line) _ _ (λ status_line c. (c, inl refl, refl))
          (λ header_line.
            if-holds holds
              (ltb 8192 amount
                || ltb (64 * 1024 - min t.header_bytes (64 * 1024)) amount
                || leb 64 t.header_count)
              _ _ (λ full c. cc c.1) (λ room c. (c, inl refl, refl))))
      clear

progress-IsTaken :
    (asked : Option Bool) (t : TransferState)
    → IsClear (transfer_progress asked t).0
    → IsClear t × IsTaken (progress asked) t × ((transfer_progress asked t).0.body ≡ t.body)
unfolding transfer_progress
progress-IsTaken none t clear = (clear, (refl, inl (λ e. cc e)), refl)
progress-IsTaken (some false) t clear = ground (arith, clear)
progress-IsTaken (some true) t clear = ground (arith, clear)

-- The first callback that sets a flag leaves it set.
pub call_all-AreTaken :
    (callbacks : List TransferCallback) (t : TransferState)
    → IsClear (call_all callbacks t)
    → IsClear t × AreTaken callbacks t × ((call_all callbacks t).body ≡ t.body ++ body_of callbacks)
unfolding call_all
call_all-AreTaken [] t clear = (clear, tt, sym (append-nil t.body))
call_all-AreTaken (body_block size count block ∷ callbacks) t clear =
    let (after, taken, body) =
      call_all-AreTaken callbacks (write_body size count block t).0 clear in
    let (before, given, more) = body_taken size count block t after in
    (
      before,
      (given, taken),
      body
          ∙ ap (λ s. s ++ body_of callbacks) more
          ∙ append_assoc t.body (take (size * count) block) (body_of callbacks),
    )
call_all-AreTaken (header_block size count block ∷ callbacks) t clear =
    let (after, taken, body) =
      call_all-AreTaken callbacks (write_header size count block t).0 clear in
    let (before, given, same) = header_taken size count block t after in
    (before, (given, taken), body ∙ ap (λ s. s ++ body_of callbacks) same)
call_all-AreTaken (progress asked ∷ callbacks) t clear =
    let (after, taken, body) = call_all-AreTaken callbacks (transfer_progress asked t).0 clear in
    let (before, given, same) = progress-IsTaken asked t after in
    (before, (given, taken), body ∙ ap (λ s. s ++ body_of callbacks) same)
