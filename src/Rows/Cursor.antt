-- ===== src/Rows/Cursor.antt =====
-- The cursors of VoltRows (voltdbclient/rows.go) stay on a table of the response.
use voltdb_client_go.Common.{
  ℕ, ◌<◌, ◌≡◌, refl, sym, ap, ◌∙◌, subst, arith, Bool, true, false, Bool-cases, inl, inr, not, ◌||◌,
  ℤ, pos, negsuc, ltb_ℤ, eqb_ℤ, ◌+ℤ◌, Option, none, some, List, [], ◌∷◌, length, length-set,
  get_elem?, get_elem?-in, set_same, Outcome, ok, panic, M, ◌>>=◌, pure, bind,
}
use voltdb_client_go.Word.{wrap, w16, w32}
use voltdb_client_go.Table
use voltdb_client_go.Table.{
  VoltTable, index, get_bytes, ensure_offsets, calc_offsets, calc_offsets_of, offsets_size,
  read_column,
}
use voltdb_client_go.Response.{VoltResponseInfo, VoltRows, new_volt_rows}
use voltdb_client_go.Rows.{
  is_valid_table, table, put_table, keep_table, run_at, on_table, advance_row, advance_to_row,
  advance_table, advance_to_table, column_bytes, current_bytes,
}
use voltdb_client_go.Rows.Fill.{rows_at, table-rows_at, on_table-rows_at}

-- The calls that move a cursor.
pub data Call : Type 0 where
  next_row next_table : Call
  to_row to_table : ℤ → Call

pub moved : Call → M VoltRows Bool
moved Call.next_row = advance_row
moved Call.next_table = advance_table
moved (Call.to_row i) = advance_to_row i
moved (Call.to_table i) = advance_to_table i

pub moved_all : List Call → M VoltRows (List Bool)
unfolding moved
moved_all [] = pure []
moved_all (c ∷ cs) = moved c >>= λ b. moved_all cs >>= λ bs. pure (b ∷ bs)

-- The cursor is on one of the tables, of which there are as many as the response says.
pub record IsPlaced (info : VoltResponseInfo) (vr : VoltRows) : Type 0 where
  pub place : ℕ
  pub at : vr.table_index ≡ pos place
  pub inside : place < length vr.tables
  pub of : vr.volt_response ≡ info
  pub size : info.num_tables ≡ pos (length vr.tables)

-- A call that returns, and leaves the cursor so.
Stays : {A : Type 0} → VoltResponseInfo → Outcome VoltRows A → Type 0
Stays {A} info o = (a : A) × (s : VoltRows) × (o ≡ ok a s) × IsPlaced info s

table-some :
    (info : VoltResponseInfo) (vr : VoltRows)
    → IsPlaced info vr
    → (t : VoltTable) × (table vr ≡ some t)
unfolding table index
table-some info vr v =
    let (t, e) = get_elem?-in vr.tables v.place (omega (arith, v.inside)) in
    (t, ap (index vr.tables) v.at ∙ e)

put_table-IsPlaced :
    (info : VoltResponseInfo) (vr : VoltRows) (t : VoltTable)
    → IsPlaced info vr
    → IsPlaced info (put_table vr vr.table_index t)
unfolding put_table
put_table-IsPlaced info vr t v =
    subst (λ i. IsPlaced info (put_table vr i t)) (sym v.at)
      (let len = length-set vr.tables v.place t in
        record {
          place = v.place;
          at = v.at;
          inside = omega (arith, v.inside, len);
          of = v.of;
          size = v.size ∙ ap pos (sym len);
        })

-- A method of the table that always answers.
on_table-Stays :
    {A : Type 0} (m : M VoltTable A) (info : VoltResponseInfo) (vr : VoltRows)
    → ((t : VoltTable) → (a : A) × (u : VoltTable) × (m t ≡ ok a u))
    → IsPlaced info vr
    → Stays info (on_table m vr)
unfolding on_table run_at keep_table Stays
on_table-Stays m info vr answers v =
    let (t, there) = table-some info vr v in
    let (a, u, e) = answers t in
    (
      a,
      put_table vr vr.table_index u,
      ap (run_at m vr) there ∙ ap (keep_table vr) e,
      put_table-IsPlaced info vr u v,
    )

to_row-ok :
    (i : ℤ) (t : VoltTable) → (a : Bool) × (u : VoltTable) × (Table.advance_to_row i t ≡ ok a u)
unfolding Table.advance_to_row
to_row-ok i t = elim (Bool-cases (ltb_ℤ i t.num_rows)) [
  | inl e ↦ (true, record t { column_offsets = none; row_index = i }, rw e refl)
  | inr e ↦ (false, t, rw e refl)
]

next_row-ok : (t : VoltTable) → (a : Bool) × (u : VoltTable) × (Table.advance_row t ≡ ok a u)
unfolding Table.advance_row
next_row-ok t = to_row-ok (wrap w32 (t.row_index +ℤ pos 1)) t

or_false : (a b : Bool) → (not a || b) ≡ false → (a ≡ true) × (b ≡ false)
or_false true b e = (refl, e)
or_false false b e = cc

natural_lem :
    (i : ℤ) (m : ℕ)
    → ltb_ℤ i (pos 0) ≡ false
    → ltb_ℤ i (pos m) ≡ true
    → (j : ℕ) × (i ≡ pos j) × (j < m)
natural_lem (pos j) m natural below = (j, refl, ground arith)
natural_lem (negsuc j) m natural below = absurd (ground arith)

in_range :
    (i n : ℤ) (m : ℕ)
    → n ≡ pos m
    → (not (ltb_ℤ i n) || ltb_ℤ i (pos 0)) ≡ false
    → (j : ℕ) × (i ≡ pos j) × (j < m)
in_range i n m e h =
    let (below, natural) = or_false (ltb_ℤ i n) (ltb_ℤ i (pos 0)) h in
    natural_lem i m natural (ap (ltb_ℤ i) (sym e) ∙ below)

to_table-Stays :
    (info : VoltResponseInfo) (i : ℤ) (vr : VoltRows)
    → IsPlaced info vr
    → Stays info (advance_to_table i vr)
unfolding advance_to_table Stays
to_table-Stays info i vr v =
    elim (Bool-cases (not (ltb_ℤ i vr.volt_response.num_tables) || ltb_ℤ i (pos 0))) [
      | inl e ↦ (false, vr, rw e refl, v)
      | inr e ↦ (
        true,
        record vr { table_index = i },
        rw e refl,
        (let (j, at, inside) =
              in_range i vr.volt_response.num_tables (length vr.tables)
                (ap (λ f. f.num_tables) v.of ∙ v.size) e in
            record { place = j; at = at; inside = inside; of = v.of; size = v.size }),
      )
    ]

moved-Stays :
    (info : VoltResponseInfo) (c : Call) (vr : VoltRows)
    → IsPlaced info vr
    → Stays info (moved c vr)
unfolding moved advance_row advance_to_row advance_table is_valid_table Stays
moved-Stays info Call.next_row vr v = on_table-Stays Table.advance_row info vr next_row-ok v
moved-Stays info Call.next_table vr v =
    to_table-Stays info (wrap w16 (vr.table_index +ℤ pos 1)) vr v
moved-Stays info (Call.to_table i) vr v = to_table-Stays info i vr v
moved-Stays info (Call.to_row i) vr v =
    let valid : not (eqb_ℤ vr.table_index (negsuc 0)) ≡ true =
      ap (λ z. not (eqb_ℤ z (negsuc 0))) v.at ∙ ground arith in
    rw valid (on_table-Stays (Table.advance_to_row i) info vr (to_row-ok i) v)

moved_all-Stays :
    (info : VoltResponseInfo) (cs : List Call) (vr : VoltRows)
    → IsPlaced info vr
    → Stays info (moved_all cs vr)
unfolding moved_all Stays
moved_all-Stays info [] vr v = ([], vr, refl, v)
moved_all-Stays info (c ∷ cs) vr v =
    let (b, s, e, w) = moved-Stays info c vr v in
    let (bs, t, f, x) = moved_all-Stays info cs s w in
    (
      b ∷ bs,
      t,
      ap (λ o. bind o (λ y. moved_all cs >>= λ ys. pure (y ∷ ys))) e
          ∙ ap (λ o. bind o (λ ys. pure (b ∷ ys))) f,
      x,
    )

-- On the rows of a response with a table, no sequence of AdvanceRow, AdvanceToRow, AdvanceTable and
-- AdvanceToTable panics or fails, with whatever indices, and behind it there is a current table.
pub moved_all-placed :
    (info : VoltResponseInfo) (t : VoltTable) (ts : List VoltTable) (cs : List Call)
    → info.num_tables ≡ pos (length (t ∷ ts))
    → (bs : List Bool) × (s : VoltRows) × (u : VoltTable) × (moved_all cs
          (new_volt_rows info (t ∷ ts))
        ≡ ok bs s)
      × (table s ≡ some u)
unfolding Stays new_volt_rows
moved_all-placed info t ts cs e =
    let start : VoltRows = record { volt_response = info; tables = t ∷ ts; table_index = pos 0 } in
    let (bs, s, f, v) =
      moved_all-Stays info cs start
        (record { place = 0; at = refl; inside = omega arith; of = refl; size = e }) in
    let (u, there) = table-some info s v in (bs, s, u, f, there)

-- A row that is not there.
no_row : (vt : VoltTable) (o : Option ℕ) → calc_offsets_of vt o none ≡ panic
unfolding calc_offsets_of
no_row vt none = refl
no_row vt (some n) = refl

abbrev before_rows : VoltTable → ℕ → VoltTable
before_rows t m = record t { column_offsets = none; row_index = negsuc m }

to_row-negative :
    (t : VoltTable) (n m : ℕ)
    → t.num_rows ≡ pos n
    → Table.advance_to_row (negsuc m) t ≡ ok true (before_rows t m)
unfolding Table.advance_to_row
to_row-negative t n m rows =
    let below : ltb_ℤ (negsuc m) t.num_rows ≡ true = ap (ltb_ℤ (negsuc m)) rows ∙ ground arith in
    rw below refl

get_bytes-before :
    (t : VoltTable) (m : ℕ) (ci : ℤ) → get_bytes (negsuc m) ci (before_rows t m) ≡ panic
unfolding get_bytes ensure_offsets calc_offsets index
get_bytes-before t m ci =
    ap (λ o. bind o (λ _ u. read_column (negsuc m) ci u u.column_offsets))
      (no_row (before_rows t m) (offsets_size t.column_count))

-- AdvanceToRow takes a negative index for a row: on a valid table it answers true, and the next read
-- of a column panics.
pub advance_to_row-negative :
    (vr : VoltRows) (t : VoltTable) (i n m : ℕ) (ci : ℤ)
    → vr.table_index ≡ pos i
    → get_elem? vr.tables i ≡ some t
    → t.num_rows ≡ pos n
    → (s : VoltRows) × (advance_to_row (negsuc m) vr ≡ ok true s) × (column_bytes ci s ≡ panic)
unfolding advance_to_row is_valid_table on_table run_at keep_table column_bytes current_bytes
advance_to_row-negative vr t i n m ci at there rows =
    let here : VoltTable → VoltRows = rows_at vr.volt_response vr.tables i in
    let u : VoltTable = before_rows t m in
    let start : here t ≡ vr =
      ap (λ ts. record { volt_response = vr.volt_response; tables = ts; table_index = pos i })
        (set_same vr.tables i t there)
      ∙ ap (λ k. record { volt_response = vr.volt_response; tables = vr.tables; table_index = k })
          (sym at) in
    let valid : not (eqb_ℤ (pos i) (negsuc 0)) ≡ true = ground arith in
    let step : advance_to_row (negsuc m) (here t) ≡ ok true (here u) = rw valid (
      on_table-rows_at (Table.advance_to_row (negsuc m)) vr.volt_response vr.tables i t u t true
        there (to_row-negative t n m rows)) in
    (
      here u,
      subst (λ s. advance_to_row (negsuc m) s ≡ ok true (here u)) start step,
      ap (run_at (current_bytes ci) (here u)) (table-rows_at vr.volt_response vr.tables i u t there)
          ∙ ap (keep_table (here u)) (get_bytes-before t m ci),
    )
