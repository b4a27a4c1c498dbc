-- ===== src/Scan/Examples.antt =====
-- The theorem on FillDataChunk, applied.
use duckdb_data.Scan.{Row, ChunkSource, Scan, empty_buffer, fill_data_chunk}
use duckdb_data.Scan.Stream.{stream, Takes, fill_data_chunk-Takes}
use duckdb_data.Base.{Option, none, some, [], ◌∷◌, Bytes, codes, ok}

-- A cast that refuses the empty text.
abbrev cast_text : Unit {0} → Bytes → Option Bytes
cast_text type [] = none
cast_text type (c ∷ text) = some (c ∷ text)

abbrev row : Bytes → Row
row text = some text ∷ none ∷ []

-- Two chunks around an empty one, and then one of which a value is refused.
abbrev chunks : ChunkSource
chunks =
    ok (row (codes "a") ∷ row (codes "b") ∷ [])
    ∷ ok []
    ∷ ok (row (codes "c") ∷ row (codes "d") ∷ [])
    ∷ ok (row [] ∷ [])
    ∷ []

abbrev scan : Scan
scan = record { source = chunks; buffer = empty_buffer }

fill_data_chunk-Takes_example :
    Takes cast_text (tt ∷ tt ∷ []) 3 (stream scan) (fill_data_chunk cast_text (tt ∷ tt ∷ []) 3 scan)
fill_data_chunk-Takes_example = fill_data_chunk-Takes cast_text (tt ∷ tt ∷ []) 3 scan
