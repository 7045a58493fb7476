-- ===== src/Table.antt =====
-- One result table and the offsets of its columns (voltdbclient/table.go).
use voltdb_client_go.Common.{
  ℕ, zero, suc, ◌==◌, if◌then◌else◌, Bool, true, false, ◌&&◌, leb, ℤ, pos, negsuc, ◌+ℤ◌, ltb_ℤ,
  eqb_ℤ, Option, none, some, List, [], ◌∷◌, length, get_elem?, take, drop, unsupported_type,
  Outcome, ok, err, panic, M, ◌>>=◌, ◌>>◌, pure, fail, panics, ◌-◌, bind,
}
use voltdb_client_go.Word.{wrap, w16, w32}
use voltdb_client_go.Wire.DecoderAt.{int32_at}
pub mod Offsets
pub mod Columns
mod Tests

-- A Go map from column names: the newest entry of a key stands first.
abbrev pub NameMap : Type 0
NameMap = List (List ℕ × ℤ)

unfoldable pub bytes_eq : List ℕ → List ℕ → Bool
bytes_eq [] [] = true
bytes_eq (x ∷ xs) (y ∷ ys) = x == y && bytes_eq xs ys
bytes_eq _ _ = false

unfoldable pub find_name : List ℕ → NameMap → Option ℤ
unfolding bytes_eq
find_name cn [] = none
find_name cn ((n, ci) ∷ m) = if bytes_eq n cn then some ci else find_name cn m

-- `for ci, cn := range columnNames { m[cn] = int16(ci) }`
unfoldable pub index_names : ℕ → List (List ℕ) → NameMap → NameMap
index_names ci [] m = m
index_names ci (cn ∷ cns) m = index_names (suc ci) cns ((cn, wrap w16 (pos ci)) ∷ m)

pub record VoltTable : Type 0 where
  pub column_count : ℤ
  pub column_types : List ℤ
  pub column_names : List (List ℕ)
  pub num_rows : ℤ
  pub rows : List (List ℕ)
  pub row_index : ℤ
  pub cn_to_ci : NameMap
  pub column_offsets : Option (List ℤ)

unfoldable pub new_volt_table : ℤ → List ℤ → List (List ℕ) → ℤ → List (List ℕ) → VoltTable
unfolding index_names
new_volt_table column_count column_types column_names row_count rows = record {
  column_count = column_count;
  column_types = column_types;
  column_names = column_names;
  num_rows = row_count;
  rows = rows;
  row_index = negsuc 0;
  cn_to_ci = index_names 0 column_names [];
  column_offsets = none;
}

abbrev pub get_column_count : VoltTable → ℤ
get_column_count vt = vt.column_count

abbrev pub get_column_types : VoltTable → List ℤ
get_column_types vt = vt.column_types

-- Nothing calls getRowCount.
abbrev pub get_row_count : VoltTable → ℤ
get_row_count vt = vt.num_rows

unfoldable pub advance_to_row : ℤ → M VoltTable Bool
advance_to_row row_index vt =
    if ltb_ℤ row_index vt.num_rows
    then ok true (record vt { column_offsets = none; row_index = row_index })
    else ok false vt

unfoldable pub advance_row : M VoltTable Bool
unfolding advance_to_row
advance_row vt = advance_to_row (wrap w32 (vt.row_index +ℤ pos 1)) vt

-- A string or a byte array: a size of -1 is null and takes the size alone.
unfoldable pub prefixed_length : ℤ → M (List ℕ) ℤ
prefixed_length offset = do
  strlen ← int32_at offset
  pure (if eqb_ℤ strlen (negsuc 0) then pos 4 else wrap w32 (strlen +ℤ pos 4))

-- colLength on a reader of the row.
unfoldable pub col_length : ℤ → ℤ → M (List ℕ) ℤ
unfolding prefixed_length
col_length offset (pos t) =
    if t == 1
    then pure (pos 0)
    else if t == 3
    then pure (pos 1)
    else if t == 4
    then pure (pos 2)
    else if t == 5
    then pure (pos 4)
    else if t == 6
    then pure (pos 8)
    else if t == 8
    then pure (pos 8)
    else if t == 9
    then prefixed_length offset
    else if t == 11
    then pure (pos 8)
    else if t == 22
    then pure (pos 16)
    else if t == 25
    then prefixed_length offset
    else fail (unsupported_type (pos t))
col_length offset (negsuc t) = fail (unsupported_type (negsuc t))

-- The loop of calcOffsets: the ends of the columns that are left, from `offset` on.
unfoldable pub offsets_from : ℕ → List ℤ → ℤ → M (List ℕ) (List ℤ)
unfolding col_length
offsets_from zero types offset = pure []
offsets_from (suc n) [] offset = panics
offsets_from (suc n) (t ∷ types) offset = do
  len ← col_length offset t
  let next = wrap w32 (offset +ℤ len)
  rest ← offsets_from n types next
  pure (next ∷ rest)

-- `rows[i]` and its like, which panic out of range.
unfoldable pub index {ℓ} : {A : Type ℓ} → List A → ℤ → Option A
index xs (pos i) = get_elem? xs i
index xs (negsuc i) = none

-- `make([]int32, vt.columnCount+1)` in int16, and then a write to its first element.
unfoldable pub offsets_size : ℤ → Option ℕ
offsets_size (pos n) = elim (wrap w16 (pos (suc n))) [ pos m ↦ some n | negsuc m ↦ none ]
offsets_size (negsuc n) = none

unfoldable pub store_offsets : VoltTable → Outcome (List ℕ) (List ℤ) → Outcome VoltTable (Unit {0})
store_offsets vt (ok ends _) = ok tt (record vt { column_offsets = some (pos 0 ∷ ends) })
store_offsets vt (err e _) = err e vt
store_offsets vt panic = panic

unfoldable pub calc_offsets_of :
    VoltTable → Option ℕ → Option (List ℕ) → Outcome VoltTable (Unit {0})
unfolding offsets_from store_offsets
calc_offsets_of vt none row = panic
calc_offsets_of vt (some n) none = panic
calc_offsets_of vt (some n) (some row) =
    store_offsets vt (offsets_from n vt.column_types (pos 0) row)

unfoldable pub calc_offsets : M VoltTable (Unit {0})
unfolding calc_offsets_of offsets_size index
calc_offsets vt = calc_offsets_of vt (offsets_size vt.column_count) (index vt.rows vt.row_index)

-- `row[lo:hi]`
unfoldable pub subslice : List ℕ → ℤ → ℤ → Option (List ℕ)
subslice row (pos lo) (pos hi) =
    if leb lo hi && leb hi (length row) then some (take (hi - lo) (drop lo row)) else none
subslice row _ _ = none

unfoldable pub slice_of : Option (List ℕ) → Option ℤ → Option ℤ → Option (List ℕ)
unfolding subslice
slice_of (some row) (some lo) (some hi) = subslice row lo hi
slice_of _ _ _ = none

unfoldable pub column_slice : ℤ → ℤ → VoltTable → List ℤ → Option (List ℕ)
unfolding slice_of index
column_slice row_index column_index vt offsets =
    slice_of (index vt.rows row_index) (index offsets column_index)
      (index offsets (wrap w16 (column_index +ℤ pos 1)))

unfoldable pub or_panic : Option (List ℕ) → M VoltTable (List ℕ)
or_panic none = panics
or_panic (some b) = pure b

-- calcOffsets if the offsets are nil
unfoldable pub ensure_offsets : VoltTable → Option (List ℤ) → Outcome VoltTable (Unit {0})
unfolding calc_offsets
ensure_offsets vt none = calc_offsets vt
ensure_offsets vt (some _) = ok tt vt

unfoldable pub read_column : ℤ → ℤ → VoltTable → Option (List ℤ) → Outcome VoltTable (List ℕ)
unfolding column_slice or_panic
read_column row_index column_index vt none = panic
read_column row_index column_index vt (some offsets) =
    or_panic (column_slice row_index column_index vt offsets) vt

unfoldable pub get_bytes : ℤ → ℤ → M VoltTable (List ℕ)
unfolding ensure_offsets read_column
get_bytes row_index column_index vt =
    bind (ensure_offsets vt vt.column_offsets)
      (λ _ vt'. read_column row_index column_index vt' vt'.column_offsets)
