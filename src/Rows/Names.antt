-- ===== src/Rows/Names.antt =====
-- The getters by column name (voltdbclient/rows.go). `to_upper` is strings.ToUpper.
use voltdb_client_go.Common.{ℕ, ℤ, Option, none, some, List, no_column, panic, M, fail}
use voltdb_client_go.Table.{VoltTable, find_name}
use voltdb_client_go.Response.{VoltRows}
use voltdb_client_go.Rows.{
  Datum, table, get_big_int, get_decimal, get_float, get_integer, get_small_int, get_string,
  get_timestamp, get_tiny_int, get_varbinary,
}

-- The index that a name has in the current table, which panics without a table.
unfoldable pub name_index : List ℕ → Option VoltTable → Option (Option ℤ)
name_index cn none = none
name_index cn (some t) = some (find_name cn t.cn_to_ci)

unfoldable pub at_index : (ℤ → M VoltRows Datum) → List ℕ → Option (Option ℤ) → M VoltRows Datum
at_index get cn none vr = panic
at_index get cn (some none) vr = fail (no_column cn) vr
at_index get cn (some (some ci)) vr = get ci vr

module _ (to_upper : List ℕ → List ℕ) where
  unfoldable pub get_by_name : (ℤ → M VoltRows Datum) → List ℕ → M VoltRows Datum
  unfolding name_index at_index
  get_by_name get cn vr = at_index get cn (name_index (to_upper cn) (table vr)) vr

  unfoldable pub get_big_int_by_name : List ℕ → M VoltRows Datum
  unfolding get_by_name
  get_big_int_by_name = get_by_name get_big_int

  unfoldable pub get_decimal_by_name : List ℕ → M VoltRows Datum
  unfolding get_by_name
  get_decimal_by_name = get_by_name get_decimal

  unfoldable pub get_float_by_name : List ℕ → M VoltRows Datum
  unfolding get_by_name
  get_float_by_name = get_by_name get_float

  unfoldable pub get_integer_by_name : List ℕ → M VoltRows Datum
  unfolding get_by_name
  get_integer_by_name = get_by_name get_integer

  unfoldable pub get_small_int_by_name : List ℕ → M VoltRows Datum
  unfolding get_by_name
  get_small_int_by_name = get_by_name get_small_int

  unfoldable pub get_string_by_name : List ℕ → M VoltRows Datum
  unfolding get_by_name
  get_string_by_name = get_by_name get_string

  unfoldable pub get_timestamp_by_name : List ℕ → M VoltRows Datum
  unfolding get_by_name
  get_timestamp_by_name = get_by_name get_timestamp

  unfoldable pub get_tiny_int_by_name : List ℕ → M VoltRows Datum
  unfolding get_by_name
  get_tiny_int_by_name = get_by_name get_tiny_int

  unfoldable pub get_varbinary_by_name : List ℕ → M VoltRows Datum
  unfolding get_by_name
  get_varbinary_by_name = get_by_name get_varbinary
