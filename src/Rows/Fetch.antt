-- ===== src/Rows/Fetch.antt =====
-- From the bytes of a response to the values that a client gets: decodeRows
-- (voltdbclient/response.go) and then a call of Next (voltdbclient/rows.go) for each row.
use voltdb_client_go.Common.{
  ℕ, zero, suc, ◌+◌, ◌<◌, ◌^◌, ◌≡◌, ℤ, List, [], ◌∷◌, length, map, All, Outcome, ok, M, ◌>>=◌, pure,
}
use voltdb_client_go.Word.{Fits, w8}
use voltdb_client_go.Response.{VoltRows}
use voltdb_client_go.Response.Tables.{TableHead, IsHead, TableData}
use voltdb_client_go.Rows.{Datum}
use voltdb_client_go.Rows.Next.{next}
use voltdb_client_go.Rows.Cells.{Cell, datum_of}
use voltdb_client_go.Rows.View.{IsTypedRow, IsView, encoded}

-- A table of values. Its rows are sent as the bytes of their columns.
pub record TypedTable : Type 0 where
  pub head : TableHead
  pub types : List ℤ
  pub names : List (List ℕ)
  pub rows : List (List Cell)

abbrev pub data_of : TypedTable → TableData
data_of t = record { head = t.head; types = t.types; names = t.names; rows = map encoded t.rows }

pub record IsTypedTable (t : TypedTable) : Type 0 where
  pub head_good : IsHead t.head
  pub columns : length t.types + 1 < 2 ^ 15
  pub named : length t.names ≡ length t.types
  pub types_fit : All (Fits w8) t.types
  pub names_fit : All (λ n. length n < 2 ^ 31) t.names
  pub rows_count : length t.rows < 2 ^ 31
  pub typed : All (IsTypedRow t.types) t.rows

-- `n` calls of Next.
pub fetch : ℕ → ℕ → M VoltRows (List (List Datum))
fetch zero width = pure []
fetch (suc n) width = next width >>= λ r. fetch n width >>= λ rs. pure (r ∷ rs)

-- What a call gives where there is a row left.
Row : List ℤ → List Datum → List (List Cell) → Outcome VoltRows (List Datum) → Type 0
Row types a rest o = (vr : VoltRows) × ((o ≡ ok a vr) × IsView types rest vr)

-- The calls up to the last row, and the state they leave.
Fetched : List ℤ → List (List Cell) → VoltRows → Type 0
Fetched types rest vr =
    (s : VoltRows) × ((fetch (length rest) (length types) vr ≡ ok (map (map datum_of) rest) s)
      × IsView types [] s)
