-- ===== src/Rows.antt =====
-- VoltRows: the cursors over tables and rows, the column getters and Next (voltdbclient/rows.go).
-- Copies of a VoltRows share its tables, which are pointers; the index of the table is each copy's
-- own, and only the two methods with a pointer receiver change it.
use voltdb_client_go.Common.{
  ℕ, zero, suc, ◌==◌, leb, ltb, ◌&&◌, ◌||◌, not, if◌then◌else◌, Bool, true, false, ℤ, pos, negsuc,
  ◌+ℤ◌, ltb_ℤ, eqb_ℤ, Option, none, some, List, [], ◌∷◌, ◌++◌, length, drop, set, get_elem?, Error,
  eof, no_column, wrong_width, unsupported_type, no_table, wrong_count, failed_column, Outcome, ok,
  err, panic, M, ◌>>=◌, ◌>>◌, pure, fail, panics, guard,
}
use voltdb_client_go.Word.{signed, get_uint, wrap, w8, w16, w32, w64, min_int64}
use voltdb_client_go.Wire.Instant.{scale}
use voltdb_client_go.Response.{VoltRows}
use voltdb_client_go.Table
use voltdb_client_go.Table.{VoltTable, get_bytes, index}
pub mod Names
pub mod Next
pub mod Cells
pub mod Getters
pub mod Fill
pub mod View
pub mod Fetch
pub mod Decimals
pub mod ByName
pub mod Cursor
mod Tests

-- The interface value that a getter returns. A float64 is its bits, a time its nanoseconds. A
-- decimal is the integer that `GetDecimal` divides by 10 ^ 12 in a big.Float.
pub data Datum : Type 0 where
  nil : Datum
  tinyint smallint integer bigint : ℤ → Datum
  float decimal : ℕ → Datum
  string varbinary : List ℕ → Datum
  timestamp : ℤ → Datum

unfoldable pub is_valid_table : VoltRows → Bool
is_valid_table vr = not (eqb_ℤ vr.table_index (negsuc 0))

-- `vr.tables[vr.tableIndex]`, which panics out of range.
unfoldable pub table : VoltRows → Option VoltTable
unfolding index
table vr = index vr.tables vr.table_index

unfoldable pub put_table : VoltRows → ℤ → VoltTable → VoltRows
put_table vr (pos i) t = record vr { tables = set vr.tables i t }
put_table vr (negsuc i) t = vr

unfoldable pub keep_table : {A : Type 0} → VoltRows → Outcome VoltTable A → Outcome VoltRows A
unfolding put_table
keep_table vr (ok a t) = ok a (put_table vr vr.table_index t)
keep_table vr (err e t) = err e (put_table vr vr.table_index t)
keep_table vr panic = panic

unfoldable pub run_at :
    {A : Type 0} → M VoltTable A → VoltRows → Option VoltTable → Outcome VoltRows A
unfolding keep_table
run_at m vr none = panic
run_at m vr (some t) = keep_table vr (m t)

-- A method call on the current table.
unfoldable pub on_table : {A : Type 0} → M VoltTable A → M VoltRows A
unfolding run_at table
on_table m vr = run_at m vr (table vr)

unfoldable pub columns : VoltRows → Option (List (List ℕ))
unfolding is_valid_table table
columns vr =
    if is_valid_table vr
    then elim (table vr) [ none ↦ none | some t ↦ some t.column_names ]
    else some []

unfoldable pub column_count : VoltRows → Option ℤ
unfolding is_valid_table table
column_count vr =
    if is_valid_table vr
    then elim (table vr) [ none ↦ none | some t ↦ some t.column_count ]
    else some (pos 0)

unfoldable pub column_types : VoltRows → Option (List ℤ)
unfolding is_valid_table table
column_types vr =
    if is_valid_table vr
    then elim (table vr) [ none ↦ none | some t ↦ some t.column_types ]
    else some []

unfoldable pub advance_row : M VoltRows Bool
unfolding on_table
advance_row = on_table Table.advance_row

unfoldable pub advance_to_row : ℤ → M VoltRows Bool
unfolding on_table is_valid_table
advance_to_row row_index vr =
    if is_valid_table vr then on_table (Table.advance_to_row row_index) vr else ok false vr

unfoldable pub advance_to_table : ℤ → M VoltRows Bool
advance_to_table table_index vr =
    if not (ltb_ℤ table_index vr.volt_response.num_tables) || ltb_ℤ table_index (pos 0)
    then ok false vr
    else ok true (record vr { table_index = table_index })

unfoldable pub advance_table : M VoltRows Bool
unfolding advance_to_table
advance_table vr = advance_to_table (wrap w16 (vr.table_index +ℤ pos 1)) vr

-- getBytes at the current row.
unfoldable pub current_bytes : ℤ → M VoltTable (List ℕ)
current_bytes ci vt = get_bytes vt.row_index ci vt

unfoldable pub column_bytes : ℤ → M VoltRows (List ℕ)
unfolding on_table current_bytes
column_bytes ci = on_table (current_bytes ci)

-- What a getter makes of the bytes of its column.
unfoldable pub sized : ℕ → (List ℕ → Datum) → ℤ → List ℕ → M VoltRows Datum
sized n f ci bs = if length bs == n then pure (f bs) else fail (wrong_width ci)

-- The lowest value of a type stands for null.
unfoldable pub unless : ℤ → (ℤ → Datum) → ℤ → Datum
unless low f v = if eqb_ℤ v low then nil else f v

unfoldable pub big_int_of : List ℕ → Datum
unfolding unless
big_int_of bs = unless min_int64 bigint (signed w64 (get_uint bs))

unfoldable pub integer_of : List ℕ → Datum
unfolding unless
integer_of bs = unless (negsuc 2147483647) integer (signed w32 (get_uint bs))

unfoldable pub small_int_of : List ℕ → Datum
unfolding unless
small_int_of bs = unless (negsuc 32767) smallint (signed w16 (get_uint bs))

-- the bits of -1.7E+308
abbrev pub null_float : ℕ
null_float = 18441750990357478262

unfoldable pub float_of : List ℕ → Datum
float_of bs = let bits = get_uint bs in if bits == null_float then nil else float bits

-- The sixteen bytes of nullDecimal as a number.
abbrev pub null_decimal : ℕ
null_decimal = 170141183460469231731687303715884105728

unfoldable pub decimal_of : List ℕ → Datum
decimal_of bs = let n = get_uint bs in if n == null_decimal then nil else decimal n

-- `time.Unix(0, millis*1000)`
unfoldable pub timestamp_of : List ℕ → Datum
timestamp_of bs =
    let v = signed w64 (get_uint bs) in
    if eqb_ℤ v min_int64 then nil else timestamp (wrap w64 (scale 1000 v))

-- `int8(bs[0])` panics without a byte.
unfoldable pub read_tiny_int : ℤ → List ℕ → M VoltRows Datum
unfolding unless
read_tiny_int ci [] = panics
read_tiny_int ci (b ∷ []) = pure (unless (negsuc 127) tinyint (signed w8 b))
read_tiny_int ci (b ∷ c ∷ bs) = fail (wrong_width ci)

-- Four bytes are the length alone, which is -1 for null; `bs[4:]` panics on fewer.
unfoldable pub read_prefixed : (List ℕ → Datum) → List ℕ → M VoltRows Datum
read_prefixed f bs =
    if length bs == 4 && eqb_ℤ (signed w32 (get_uint bs)) (negsuc 0)
    then pure nil
    else if ltb (length bs) 4
    then panics
    else pure (f (drop 4 bs))

unfoldable pub get_big_int : ℤ → M VoltRows Datum
unfolding column_bytes sized big_int_of
get_big_int ci = column_bytes ci >>= sized 8 big_int_of ci

unfoldable pub get_decimal : ℤ → M VoltRows Datum
unfolding column_bytes sized decimal_of
get_decimal ci = column_bytes ci >>= sized 16 decimal_of ci

unfoldable pub get_float : ℤ → M VoltRows Datum
unfolding column_bytes sized float_of
get_float ci = column_bytes ci >>= sized 8 float_of ci

unfoldable pub get_integer : ℤ → M VoltRows Datum
unfolding column_bytes sized integer_of
get_integer ci = column_bytes ci >>= sized 4 integer_of ci

unfoldable pub get_small_int : ℤ → M VoltRows Datum
unfolding column_bytes sized small_int_of
get_small_int ci = column_bytes ci >>= sized 2 small_int_of ci

unfoldable pub get_string : ℤ → M VoltRows Datum
unfolding column_bytes read_prefixed
get_string ci = column_bytes ci >>= read_prefixed string

unfoldable pub get_timestamp : ℤ → M VoltRows Datum
unfolding column_bytes sized timestamp_of
get_timestamp ci = column_bytes ci >>= sized 8 timestamp_of ci

unfoldable pub get_tiny_int : ℤ → M VoltRows Datum
unfolding column_bytes read_tiny_int
get_tiny_int ci = column_bytes ci >>= read_tiny_int ci

unfoldable pub get_varbinary : ℤ → M VoltRows Datum
unfolding column_bytes read_prefixed
get_varbinary ci = column_bytes ci >>= read_prefixed varbinary
