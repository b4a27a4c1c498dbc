-- ===== src/Scan.antt =====
-- src/scan_runtime.cpp: FillDataChunk, over a source of chunks that is seen by what its NextChunk will
-- give or throw. The types of the columns and DuckDB's cast to them are arguments.
pub mod Stream
mod Examples
use duckdb_data.Query.Types.{Cell, QueryError}
use duckdb_data.Base.{
  ℕ, zero, suc, ◌+◌, Bool, true, false, Option, none, some, List, [], ◌∷◌, leb, if◌then◌else◌,
  length, get_or, Bytes, ◌>>=◌, ◌>>◌, Result, ok, err,
}

abbrev pub Row : Type 0
Row = List Cell

-- The exception of the source, or that of a value of some column.
pub data ScanError : Type 0 where
  source_failed : QueryError → ScanError
  conversion_failed : ℕ → ScanError
  -- No exception of the source code: the rounds given to the loop ran out.
  out_of_rounds : ScanError

-- What the calls of NextChunk will give: at the end of the list, `false`.
abbrev pub ChunkSource : Type 0
ChunkSource = List (Result QueryError (List Row))

pub record ScanBuffer : Type 0 where
  pub current_chunk : List Row
  pub current_row : ℕ
  pub exhausted : Bool

-- What is left of the source and of the buffer.
pub record Scan : Type 0 where
  pub source : ChunkSource
  pub buffer : ScanBuffer

abbrev pub empty_buffer : ScanBuffer
empty_buffer = record { current_chunk = []; current_row = 0; exhausted = false }

-- The buffer behind a call of NextChunk.
abbrev pub buffered : List Row → ScanBuffer
buffered rows = record { current_chunk = rows; current_row = 0; exhausted = false }

module _ {T V : Type 0} (cast : T → Bytes → Option V) where
  -- One value: NULL, or what the cast gives; a cast that throws is the column's exception.
  abbrev pub convert_cell : ℕ → T → Cell → Result ScanError (Option V)
  convert_cell column type none = ok none
  convert_cell column type (some text) = elim (cast type text) [
    | none ↦ err (conversion_failed column)
    | some v ↦ ok (some v)
  ]

  -- The loop over the columns. A row has a cell for each of them, as the cursor checks before it gives
  -- the chunk; where one is missing the source is undefined, and this reads NULL.
  unfoldable pub convert_cells : ℕ → List T → Row → Result ScanError (List (Option V))
  convert_cells column [] row = ok []
  convert_cells column (type ∷ types) row = do
    value ← convert_cell column type (get_or row column none)
    values ← convert_cells (suc column) types row
    ok (value ∷ values)

  abbrev pub Filled : Type 0
  Filled = Result ScanError (List (List (Option V))) × Scan

  -- A row in front of those that follow.
  abbrev pub prepend : List (Option V) → Filled → Filled
  prepend values (ok rows, s) = (ok (values ∷ rows), s)
  prepend values (err e, s) = (err e, s)

  abbrev pub emit : Result ScanError (List (Option V)) → Scan → Filled → Filled
  emit (ok values) s rest = prepend values rest
  emit (err e) s rest = (err e, s)

  -- A call of NextChunk on the emptied buffer; the loop goes on with `again` where it gives a chunk.
  abbrev pub read_chunk : (Scan → Filled) → ChunkSource → Filled
  read_chunk again [] =
      (ok [], record { source = []; buffer = record empty_buffer { exhausted = true } })
  read_chunk again (ok rows ∷ source) = again (record { source = source; buffer = buffered rows })
  read_chunk again (err e ∷ source) =
      (err (source_failed e), record { source = source; buffer = empty_buffer })

  -- The loop, with `room` for that many rows: one round reads a chunk or fills in a row.
  unfoldable pub fill_rounds : ℕ → List T → ℕ → Scan → Filled
  unfolding convert_cells
  fill_rounds zero types room s = (err out_of_rounds, s)
  fill_rounds (suc rounds) types zero s = (ok [], s)
  fill_rounds (suc rounds) types (suc room) s =
      let b = s.buffer in
      let next : Scan = record s { buffer = record b { current_row = suc b.current_row } } in
      let row = get_or b.current_chunk b.current_row [] in
      let more = emit (convert_cells 0 types row) next (fill_rounds rounds types room next) in
      let loaded = read_chunk (λ v. fill_rounds rounds types (suc room) v) s.source in
      if b.exhausted
      then (ok [], s)
      else if leb (length b.current_chunk) b.current_row
      then loaded
      else more

  -- Each round takes an element from the source or room from the output, but for the last one.
  unfoldable pub fill_data_chunk : List T → ℕ → Scan → Filled
  unfolding fill_rounds
  fill_data_chunk types capacity s = fill_rounds (capacity + length s.source + 1) types capacity s
