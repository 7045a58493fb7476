-- ===== src/Rows/Cells.antt =====
-- The cells of a table as the server means them: what bytes a value has in a row, and what Next
-- (voltdbclient/rows.go) is to hand out for it.
use voltdb_client_go.Common.{
  ℕ, ◌<◌, ◌≢◌, ℤ, Option, none, some, List, [], ◌∷◌, length, ◌+◌, ◌^◌, negsuc,
}
use voltdb_client_go.Word.{Fits, unsigned, put_uint, w8, w16, w32, w64, min_int64}
use voltdb_client_go.Wire.Instant.{scale}
use voltdb_client_go.Table.Offsets.{Kind, Field}
use voltdb_client_go.Rows.{Datum, null_float}

-- A value of a column's type, or null. A timestamp is a number of microseconds.
pub data Cell : Type 0 where
  null : Cell
  tinyint smallint integer bigint : Option ℤ → Cell
  float : Option ℕ → Cell
  timestamp : Option ℤ → Cell
  string varbinary : Option (List ℕ) → Cell

-- The lowest value of a type stands for null.
abbrev pub or_low : ℤ → Option ℤ → ℤ
or_low low none = low
or_low low (some v) = v

abbrev pub or_null_float : Option ℕ → ℕ
or_null_float none = null_float
or_null_float (some bits) = bits

abbrev pub field_of : Cell → Field
field_of Cell.null = Field.fixed Kind.null []
field_of (Cell.tinyint v) = Field.fixed Kind.tinyint (unsigned w8 (or_low (negsuc 127) v) ∷ [])
field_of (Cell.smallint v) =
    Field.fixed Kind.smallint (put_uint 2 (unsigned w16 (or_low (negsuc 32767) v)))
field_of (Cell.integer v) =
    Field.fixed Kind.integer (put_uint 4 (unsigned w32 (or_low (negsuc 2147483647) v)))
field_of (Cell.bigint v) = Field.fixed Kind.bigint (put_uint 8 (unsigned w64 (or_low min_int64 v)))
field_of (Cell.float v) = Field.fixed Kind.float (put_uint 8 (or_null_float v))
field_of (Cell.timestamp v) =
    Field.fixed Kind.timestamp (put_uint 8 (unsigned w64 (or_low min_int64 v)))
field_of (Cell.string none) = Field.null_string
field_of (Cell.string (some b)) = Field.string b
field_of (Cell.varbinary none) = Field.null_varbinary
field_of (Cell.varbinary (some b)) = Field.varbinary b

-- Next hands out a string as its bytes, and a time as nanoseconds.
abbrev pub datum_of : Cell → Datum
datum_of (Cell.tinyint (some v)) = Datum.tinyint v
datum_of (Cell.smallint (some v)) = Datum.smallint v
datum_of (Cell.integer (some v)) = Datum.integer v
datum_of (Cell.bigint (some v)) = Datum.bigint v
datum_of (Cell.float (some bits)) = Datum.float bits
datum_of (Cell.timestamp (some v)) = Datum.timestamp (scale 1000 v)
datum_of (Cell.string (some b)) = Datum.varbinary b
datum_of (Cell.varbinary (some b)) = Datum.varbinary b
datum_of _ = Datum.nil

-- The values that the type can hold besides its null; an instant within int64 nanoseconds.
abbrev pub IsCell : Cell → Type 0
IsCell (Cell.tinyint (some v)) = Fits w8 v × (v ≢ negsuc 127)
IsCell (Cell.smallint (some v)) = Fits w16 v × (v ≢ negsuc 32767)
IsCell (Cell.integer (some v)) = Fits w32 v × (v ≢ negsuc 2147483647)
IsCell (Cell.bigint (some v)) = Fits w64 v × (v ≢ min_int64)
IsCell (Cell.float (some bits)) = (bits < w64) × (bits ≢ null_float)
IsCell (Cell.timestamp (some v)) = Fits w64 (scale 1000 v)
IsCell (Cell.string (some b)) = length b + 4 < 2 ^ 31
IsCell (Cell.varbinary (some b)) = length b + 4 < 2 ^ 31
IsCell _ = Unit {0}
