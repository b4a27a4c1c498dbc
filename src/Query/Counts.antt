-- ===== src/Query/Counts.antt =====
-- The counters of a session: what Accept's loop and Finish check.
use duckdb_data.Query.Types.{Run, Session, Cell, add64, QueryMode, numbered_v3, direct_legacy}
use duckdb_data.Query.Session.{accept_rows, finish}
use duckdb_data.Base.{
  ℕ, ◌+◌, ◌^◌, ◌≤◌, ◌<◌, ◌≡◌, refl, ◌↔◌, Bool, true, false, Option, none, some, List, [], ◌∷◌,
  arith, length, All, ok, err,
}

abbrev pub announced : Bool → ℕ → Option ℕ
announced true n = some n
announced false n = none

-- A count agrees with what was announced, where something was.
abbrev pub Agrees : Option ℕ → ℕ → Type 0
Agrees none n = Unit {0}
Agrees (some m) n = n ≡ m

-- What must have come by the end of a result.
abbrev pub IsComplete : QueryMode → Session → Type 0
IsComplete numbered_v3 s =
    Agrees (announced s.has_expected_chunks s.expected_chunks) s.fetched_chunks
    × Agrees (announced s.has_expected_rows s.expected_rows) s.rows
IsComplete direct_legacy s =
    (s.next_url ≡ []) × Agrees (announced s.has_expected_rows s.expected_rows) s.rows

-- Finish succeeds exactly where the chunks of a numbered result and the rows agree with what was
-- announced and no chunk of a direct result is left. It then marks the session as reconciled and
-- ended, and otherwise leaves it as it was.
pub finish_iff :
    (w : Run)
    → (((finish w).0 ≡ ok tt) ↔ IsComplete w.session.mode w.session)
      × ((finish w).1.session ≡ elim (finish w).0 [
        | ok t ↦ record w.session { reconciled = true; terminal = true }
        | err e ↦ w.session
      ])
unfolding finish
finish_iff w = ground arith

-- The cells of the rows.
abbrev pub cells_of : List (List Cell) → ℕ
cells_of [] = 0
cells_of (row ∷ rows) = length row + cells_of rows

abbrev pub AllWide : ℕ → List (List Cell) → Type 0
AllWide n = All (λ row. length row ≡ n)

-- The session behind one row.
abbrev counted : Run → List Cell → Run
counted w row = record w {
  session = record w.session { cells = add64 w.session.cells (length row) };
}

-- Accept's loop, where the limit on cells is a number of 64 bits and not yet exceeded: it succeeds
-- exactly where every row is as wide as the metadata and the cells of all rows together stay
-- within the limit.
pub accept_rows_iff :
    (rows : List (List Cell)) (w : Run)
    → w.session.cells ≤ w.session.options.max_cells
    → w.session.options.max_cells < 2 ^ 64
    → ((accept_rows rows w).0 ≡ ok tt) ↔ (
        AllWide (length w.session.metadata) rows
        × (w.session.cells + cells_of rows ≤ w.session.options.max_cells))
unfolding accept_rows
accept_rows_iff [] w h k = ground (arith, h)
accept_rows_iff (row ∷ rows) w h k = ground (arith, h, k, accept_rows_iff rows (counted w row))

-- Whatever the rows are, the loop never counts more cells than the limit, and changes nothing but
-- the count of the cells.
pub accept_rows_bounded :
    (rows : List (List Cell)) (w : Run)
    → w.session.cells ≤ w.session.options.max_cells
    → w.session.options.max_cells < 2 ^ 64
    → let w' = (accept_rows rows w).1 in
      (w'.session.cells ≤ w.session.options.max_cells)
      × (w' ≡ record w { session = record w.session { cells = w'.session.cells } })
unfolding accept_rows
accept_rows_bounded [] w h k = (h, refl)
accept_rows_bounded (row ∷ rows) w h k =
    ground (arith, h, k, accept_rows_bounded rows (counted w row))
