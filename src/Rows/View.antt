-- ===== src/Rows/View.antt =====
-- VoltRows as an abstract cursor: the rows of the current table that Next (voltdbclient/rows.go) has
-- not returned yet.
use voltdb_client_go.Common.{
  ℕ, suc, ◌+◌, ◌<◌, ◌^◌, ◌≡◌, refl, sym, ap, ◌∙◌, arith, ltb_ℤ, eqb_ℤ, true, false, if◌then◌else◌,
  ℤ, pos, ◌+ℤ◌, Option, none, some, List, [], ◌∷◌, length, length-map, drop, map, get_elem?,
  get_elem?-drop, All, eof, wrong_count, Outcome, ok, err, panic,
}
use voltdb_client_go.Word.{wrap, w32}
use voltdb_client_go.Table
use voltdb_client_go.Table.{VoltTable, index}
use voltdb_client_go.Table.Offsets.{type_of, row_of, IsRow}
use voltdb_client_go.Response.{VoltResponseInfo, VoltRows}
use voltdb_client_go.Rows.{Datum, advance_row}
use voltdb_client_go.Rows.Next.{next}
use voltdb_client_go.Rows.Cells.{Cell, datum_of, IsCell}
use voltdb_client_go.Rows.Fill.{fields_of, fields_of-IsField, rows_at, with_offsets}

-- A row of a table with these column types.
pub record IsTypedRow (types : List ℤ) (cs : List Cell) : Type 0 where
  pub typed : map type_of (fields_of cs) ≡ types
  pub cells : All IsCell cs
  pub small : length (row_of (fields_of cs)) < 2 ^ 31

abbrev pub encoded : List Cell → List ℕ
encoded cs = row_of (fields_of cs)

-- The table `t`, with the rows that stand behind the current one.
pub record IsTableView (types : List ℤ) (rest : List (List Cell)) (t : VoltTable) : Type 0 where
  pub seen : ℕ
  pub count : t.column_count ≡ pos (length types)
  pub column_types : t.column_types ≡ types
  pub few : length types + 1 < 2 ^ 15
  pub before : t.row_index +ℤ pos 1 ≡ pos seen
  pub total : t.num_rows ≡ pos (seen + length rest)
  pub bounded : seen + length rest < 2 ^ 31
  pub left : drop seen t.rows ≡ map encoded rest
  pub typed : All (IsTypedRow types) rest

-- The current table of the rows.
pub record IsView (types : List ℤ) (rest : List (List Cell)) (vr : VoltRows) : Type 0 where
  pub place : ℕ
  pub current : VoltTable
  pub at : vr.table_index ≡ pos place
  pub there : get_elem? vr.tables place ≡ some current
  pub view : IsTableView types rest current

-- What Next is to do: the next row, or io.EOF. Values of a wrong number are refused, and the row is
-- gone.
abbrev pub next_row : List ℤ → ℕ → List (List Cell) → Outcome (List (List Cell)) (List Datum)
next_row types width [] = err eof []
next_row types width (r ∷ rest) =
    if eqb_ℤ (pos (length types)) (pos width)
    then ok (map datum_of r) rest
    else err (wrong_count (pos (length types)) width) rest

-- The same outcome, with a state that shows the rows that are left.
abbrev pub Matches :
    List ℤ → Outcome (List (List Cell)) (List Datum) → Outcome VoltRows (List Datum) → Type 0
Matches types (ok a rest) (ok b vr) = (a ≡ b) × IsView types rest vr
Matches types (err e rest) (err f vr) = (e ≡ f) × IsView types rest vr
Matches types panic panic = Unit {0}
Matches _ _ _ = ⊥

-- The next row becomes the current one, if there is one.
advance_at :
    (t : VoltTable) (n total : ℕ)
    → t.row_index +ℤ pos 1 ≡ pos n
    → t.num_rows ≡ pos total
    → n < 2 ^ 31
    → Table.advance_row t ≡ (
        if ltb_ℤ (pos n) (pos total)
        then ok true (record t { column_offsets = none; row_index = pos n })
        else ok false t)
unfolding Table.advance_row Table.advance_to_row
advance_at t n total before count small =
    let next : wrap w32 (t.row_index +ℤ pos 1) ≡ pos n = ap (wrap w32) before ∙ ground arith in
    ap (λ i. Table.advance_to_row i t) next
    ∙ ap
        (λ m.
          if ltb_ℤ (pos n) m
          then ok true (record t { column_offsets = none; row_index = pos n })
          else ok false t)
        count

abbrev pub row_at : VoltTable → ℕ → VoltTable
row_at t n = record t { column_offsets = none; row_index = pos n }

pub advance_end :
    (types : List ℤ) (t : VoltTable) → IsTableView types [] t → Table.advance_row t ≡ ok false t
advance_end types t v =
    advance_at t v.seen (v.seen + 0) v.before v.total (omega (arith, v.bounded))
    ∙ (let past : ltb_ℤ (pos v.seen) (pos (v.seen + 0)) ≡ false = ground arith in rw past refl)

module _ (types : List ℤ) (r : List Cell) (rest : List (List Cell)) (t : VoltTable)
    (v : IsTableView types (r ∷ rest) t) where
  pub advance_on : Table.advance_row t ≡ ok true (row_at t v.seen)
  advance_on =
      advance_at t v.seen (v.seen + suc (length rest)) v.before v.total (omega (arith, v.bounded))
      ∙ (let inside : ltb_ℤ (pos v.seen) (pos (v.seen + suc (length rest))) ≡ true = ground arith in
          rw inside refl)

  pub row_at-IsTableView : IsTableView types rest (row_at t v.seen)
  row_at-IsTableView =
      let (typed, typed_rest) = v.typed in
      record {
        seen = suc v.seen;
        count = v.count;
        column_types = v.column_types;
        few = v.few;
        before = ground arith;
        total = v.total ∙ ap pos (omega arith);
        bounded = omega (arith, v.bounded);
        left = (get_elem?-drop t.rows v.seen (encoded r) (map encoded rest) v.left).1;
        typed = typed_rest;
      }

  pub row_at-IsRow : IsRow (fields_of r) (row_at t v.seen)
  unfolding index
  row_at-IsRow =
      let (typed, typed_rest) = v.typed in
      let len : length types ≡ length (fields_of r) =
        ap length (sym typed.typed) ∙ length-map type_of (fields_of r) in
      record {
        count = v.count ∙ ap pos len;
        types = v.column_types ∙ sym typed.typed;
        current = (get_elem?-drop t.rows v.seen (encoded r) (map encoded rest) v.left).0;
        few = omega (arith, v.few, len);
        fields = fields_of-IsField r typed.cells;
        small = typed.small;
      }

module _ (info : VoltResponseInfo) (ts : List VoltTable) (k : ℕ) (w t : VoltTable)
    (there : get_elem? ts k ≡ some w) where
  -- A state is the rows at its table.
  abbrev here : VoltTable → VoltRows
  here u = rows_at info ts k u

  module _ (types : List ℤ) (r : List Cell) (rest : List (List Cell))
      (v : IsTableView types (r ∷ rest) t) where
    abbrev done : VoltRows
    done = here (row_at t v.seen)

pub with_offsets-IsTableView :
    (types : List ℤ) (rest : List (List Cell)) (t : VoltTable) (p : Option (List ℤ))
    → IsTableView types rest t
    → IsTableView types rest (with_offsets t p)
with_offsets-IsTableView types rest t p v = record {
  seen = v.seen;
  count = v.count;
  column_types = v.column_types;
  few = v.few;
  before = v.before;
  total = v.total;
  bounded = v.bounded;
  left = v.left;
  typed = v.typed;
}
