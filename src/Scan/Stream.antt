-- ===== src/Scan/Stream.antt =====
-- FillDataChunk takes rows off the front of the stream that the source and the buffer stand for.
use duckdb_data.Query.Types.{QueryError}
use duckdb_data.Scan.{
  Row, ScanError, source_failed, ChunkSource, Scan, convert_cells, Filled, prepend, emit, buffered,
  read_chunk, fill_rounds, fill_data_chunk,
}
use duckdb_data.Base.{
  ℕ, zero, suc, ◌+◌, ◌<◌, ◌≡◌, refl, sym, ap, inl, inr, true, false, Option, List, [], ◌∷◌, ◌++◌,
  map, arith, leb, if◌then◌else◌, Bool-cases, length, get_or, drop, Bytes, ◌>>=◌, Result, ok, err,
}

-- What comes next: a row, or the exception of the source.
abbrev pub Event : Type 0
Event = Result QueryError Row

abbrev pub events_of : ChunkSource → List Event
events_of [] = []
events_of (ok rows ∷ source) = map ok rows ++ events_of source
events_of (err e ∷ source) = err e ∷ events_of source

-- The stream, in which nothing shows how the rows lie in chunks.
abbrev pub stream : Scan → List Event
stream s =
    if s.buffer.exhausted
    then []
    else map ok (drop s.buffer.current_row s.buffer.current_chunk) ++ events_of s.source

module _ {T V : Type 0} (cast : T → Bytes → Option V) (types : List T) where
  -- The values of the first `room` rows, up to the first exception.
  abbrev pub take_rows : ℕ → List Event → Result ScanError (List (List (Option V)))
  take_rows zero events = ok []
  take_rows (suc room) [] = ok []
  take_rows (suc room) (err e ∷ events) = err (source_failed e)
  take_rows (suc room) (ok row ∷ events) = do
    values ← convert_cells cast 0 types row
    rows ← take_rows room events
    ok (values ∷ rows)

  -- The output is the front of the stream, and what is left is its rest.
  abbrev pub Takes : ℕ → List Event → Filled cast → Type 0
  Takes room events (ok rows, s) = (ok rows ≡ take_rows room events) × (stream s ≡ drop room events)
  Takes room events (err e, s) = err e ≡ take_rows room events

  prepend-Takes :
      (room : ℕ) (row : Row) (events : List Event) (values : List (Option V)) (x : Filled cast)
      → convert_cells cast 0 types row ≡ ok values
      → Takes room events x
      → Takes (suc room) (ok row ∷ events) (prepend cast values x)
  prepend-Takes room row events values (ok rows, s) e (h, k) = (rw (e, sym h) refl, k)
  prepend-Takes room row events values (err x, s) e h = rw (e, sym h) refl

  emit-Takes :
      (room : ℕ) (row : Row) (events : List Event) (next : Scan) (x : Filled cast)
      (converted : Result ScanError (List (Option V)))
      → convert_cells cast 0 types row ≡ converted
      → Takes room events x
      → Takes (suc room) (ok row ∷ events) (emit cast converted next x)
  emit-Takes room row events next x (ok values) e h = prepend-Takes room row events values x e h
  emit-Takes room row events next x (err f) e h = rw e refl

  read_chunk-Takes :
      (room : ℕ) (again : Scan → Filled cast) (source : ChunkSource)
      → ((rows : List Row) (rest : ChunkSource)
          → source ≡ ok rows ∷ rest
          → Takes
              (suc room)
              (map ok rows ++ events_of rest)
              (again (record { source = rest; buffer = buffered rows })))
      → Takes (suc room) (events_of source) (read_chunk cast again source)
  read_chunk-Takes room again [] k = (refl, refl)
  read_chunk-Takes room again (ok rows ∷ rest) k = k rows rest refl
  read_chunk-Takes room again (err e ∷ rest) k = refl

drop-get_or :
    {A : Type 0} (n : ℕ) (xs : List A) (d : A)
    → leb (length xs) n ≡ false
    → drop n xs ≡ get_or xs n d ∷ drop (suc n) xs
drop-get_or n [] d h = ground (arith, h)
drop-get_or zero (x ∷ xs) d h = refl
drop-get_or (suc n) (x ∷ xs) d h = drop-get_or n xs d (ground (arith, h))

drop_end : {A : Type 0} (n : ℕ) (xs : List A) → leb (length xs) n ≡ true → drop n xs ≡ []
drop_end zero [] h = refl
drop_end zero (x ∷ xs) h = ground (arith, h)
drop_end (suc n) [] h = refl
drop_end (suc n) (x ∷ xs) h = drop_end n xs (ground (arith, h))

module _ {T V : Type 0} (cast : T → Bytes → Option V) (types : List T) where
  fill_rounds-Takes :
      (rounds room : ℕ) (s : Scan)
      → room + length s.source < rounds
      → Takes cast types room (stream s) (fill_rounds cast rounds types room s)
  unfolding fill_rounds
  fill_rounds-Takes zero room s h = ground (arith, h)
  fill_rounds-Takes (suc rounds) zero s h = (refl, refl)
  fill_rounds-Takes (suc rounds) (suc room) s h = elim (Bool-cases s.buffer.exhausted) [
    | inl e ↦ rw e (refl, refl)
    | inr e ↦ elim (Bool-cases (leb (length s.buffer.current_chunk) s.buffer.current_row)) [
      | inl f ↦
          rw (e, f, drop_end s.buffer.current_row s.buffer.current_chunk f)
            (read_chunk-Takes cast types room (λ v. fill_rounds cast rounds types (suc room) v)
              s.source
              (λ rows rest same.
                fill_rounds-Takes rounds (suc room)
                  (record { source = rest; buffer = buffered rows })
                  (ground (arith, h, ap length same))))
      | inr f ↦
          let b = s.buffer in
          let next : Scan = record s {
            buffer = record b { current_row = suc b.current_row; exhausted = false };
          } in
          let row = get_or b.current_chunk b.current_row [] in
          rw (e, f, drop-get_or b.current_row b.current_chunk [] f)
            (emit-Takes cast types room row
              (map ok (drop (suc b.current_row) b.current_chunk) ++ events_of s.source) next
              (fill_rounds cast rounds types room next) (convert_cells cast 0 types row) refl
              (fill_rounds-Takes rounds room next (omega (arith, h))))
    ]
  ]

  -- FillDataChunk refines the reading of a stream of rows, in which nothing shows how they lie in
  -- chunks: it always has rounds enough, gives the next rows in order, each of their values
  -- converted, as many as there is room for or are left, and leaves the rest of the stream; or it
  -- ends in the first exception of the source or of a conversion among them.
  pub fill_data_chunk-Takes :
      (capacity : ℕ) (s : Scan)
      → Takes cast types capacity (stream s) (fill_data_chunk cast types capacity s)
  unfolding fill_data_chunk
  fill_data_chunk-Takes capacity s =
      fill_rounds-Takes (capacity + length s.source + 1) capacity s (omega arith)
