-- ===== src/Rows/Next.antt =====
-- Next of VoltRows (voltdbclient/rows.go): the values of the next row. `width` is the length of the
-- slice that is to be filled; what a failing call has filled of it is not returned.
use voltdb_client_go.Common.{
  ℕ, zero, suc, ◌==◌, if◌then◌else◌, ℤ, pos, negsuc, eqb_ℤ, Bool, true, false, List, [], ◌∷◌, eof,
  no_table, wrong_count, failed_column, unsupported_type, Outcome, ok, err, panic, M, ◌>>=◌, pure,
  fail, panics, Option, none, some,
}
use voltdb_client_go.Word.{wrap, w16}
use voltdb_client_go.Table.{VoltTable, get_column_count, get_column_types}
use voltdb_client_go.Response.{VoltRows}
use voltdb_client_go.Rows.{
  Datum, nil, is_valid_table, table, advance_row, get_big_int, get_float, get_integer,
  get_small_int, get_timestamp, get_tiny_int, get_varbinary,
}

-- `if err != nil { return fmt.Errorf("Failed to get ...", i, err) }`
unfoldable pub failing_at : ℕ → Outcome VoltRows Datum → Outcome VoltRows Datum
failing_at i (ok v vr) = ok v vr
failing_at i (err e vr) = err (failed_column i e) vr
failing_at i panic = panic

unfoldable pub or_failed : ℕ → M VoltRows Datum → M VoltRows Datum
unfolding failing_at
or_failed i m vr = failing_at i (m vr)

-- The switch on the type of column `i`.
unfoldable pub value_at : ℤ → ℕ → M VoltRows Datum
unfolding or_failed
value_at (pos t) i =
    let ci = wrap w16 (pos i) in
    if t == 1
    then pure nil
    else if t == 3
    then or_failed i (get_tiny_int ci)
    else if t == 4
    then or_failed i (get_small_int ci)
    else if t == 5
    then or_failed i (get_integer ci)
    else if t == 6
    then or_failed i (get_big_int ci)
    else if t == 8
    then or_failed i (get_float ci)
    else if t == 9
    then or_failed i (get_varbinary ci)
    else if t == 11
    then or_failed i (get_timestamp ci)
    else if t == 25
    then or_failed i (get_varbinary ci)
    else fail (unsupported_type (pos t))
value_at (negsuc t) i = fail (unsupported_type (negsuc t))

-- The loop, with the rounds left and the types from column `i` on.
unfoldable pub values_from : ℕ → List ℤ → ℕ → M VoltRows (List Datum)
unfolding value_at
values_from zero types i = pure []
values_from (suc n) [] i = panics
values_from (suc n) (t ∷ types) i = do
  v ← value_at t i
  vs ← values_from n types (suc i)
  pure (v ∷ vs)

-- Behind the check of the number of values.
unfoldable pub fill_values : ℕ → Option VoltTable → M VoltRows (List Datum)
unfolding values_from
fill_values width none = panics
fill_values width (some t) =
    if eqb_ℤ (get_column_count t) (pos width)
    then values_from width (get_column_types t) 0
    else fail (wrong_count (get_column_count t) width)

unfoldable pub after_advance : ℕ → Bool → M VoltRows (List Datum)
unfolding fill_values table
after_advance width true vr = fill_values width (table vr) vr
after_advance width false vr = fail eof vr

unfoldable pub next : ℕ → M VoltRows (List Datum)
unfolding is_valid_table advance_row after_advance
next width vr =
    if is_valid_table vr then (advance_row >>= after_advance width) vr else fail no_table vr
