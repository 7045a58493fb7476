-- ===== src/Result.antt =====
-- VoltResult: the numbers of rows that a statement has changed, table by table
-- (voltdbclient/result.go).
use voltdb_client_go.Common.{
  ℕ, Bool, true, false, if◌then◌else◌, not, ◌||◌, ℤ, pos, ltb_ℤ, ◌+ℤ◌, Option, none, some, List,
  length,
}
use voltdb_client_go.Word.{wrap, w64}
use voltdb_client_go.Table.{index}
use voltdb_client_go.Response.{VoltResult}
pub mod Cursor
mod Tests

-- Whether there is such a table, and the result with its cursor.
unfoldable pub advance_to_table : ℤ → VoltResult → Bool × VoltResult
advance_to_table ti vr =
    if not (ltb_ℤ ti (pos (length vr.rows_aff))) || ltb_ℤ ti (pos 0)
    then (false, vr)
    else (true, record vr { ti = ti })

unfoldable pub advance_table : VoltResult → Bool × VoltResult
unfolding advance_to_table
advance_table vr = advance_to_table (wrap w64 (vr.ti +ℤ pos 1)) vr

unfoldable pub last_insert_id : VoltResult → ℤ
last_insert_id vr = pos 0

-- `vr.rowsAff[vr.ti]`, which panics out of range.
unfoldable pub rows_affected : VoltResult → Option ℤ
unfolding index
rows_affected vr = index vr.rows_aff vr.ti
