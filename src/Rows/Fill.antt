-- ===== src/Rows/Fill.antt =====
-- The loop of Next (voltdbclient/rows.go) fills its slice with the values of a row.
use voltdb_client_go.Common.{
  ℕ, suc, ◌+◌, ◌<◌, ◌^◌, ◌≡◌, ◌⊎◌, inl, inr, refl, sym, ap, ◌∙◌, subst, arith, Bool-cases, ℤ, pos,
  Option, none, some, List, [], ◌∷◌, ◌++◌, length, length-append, length-map, map, set, get_elem?,
  get_elem?-set_self, set-set, append_assoc, All, ok, M, ◌>>=◌, pure, bind,
}
use voltdb_client_go.Table.{VoltTable, get_bytes, index}
use voltdb_client_go.Table.Offsets.{Field, IsField, type_of, bytes_of, ends, IsRow}
use voltdb_client_go.Table.Columns.{get_bytes-column, get_bytes-known}
use voltdb_client_go.Response.{VoltResponseInfo, VoltRows}
use voltdb_client_go.Rows.{
  table, put_table, keep_table, run_at, on_table, current_bytes, column_bytes,
}
use voltdb_client_go.Rows.Next.{value_at, values_from}
use voltdb_client_go.Rows.Cells.{Cell, field_of, datum_of, IsCell}
use voltdb_client_go.Rows.Getters.{value_at-cell, after_cell, is_null}

abbrev pub fields_of : List Cell → List Field
fields_of cs = map field_of cs

field_of-IsField : (c : Cell) → IsCell c → IsField (field_of c)
field_of-IsField Cell.null h = refl
field_of-IsField (Cell.tinyint v) h = refl
field_of-IsField (Cell.smallint v) h = refl
field_of-IsField (Cell.integer v) h = refl
field_of-IsField (Cell.bigint v) h = refl
field_of-IsField (Cell.float v) h = refl
field_of-IsField (Cell.timestamp v) h = refl
field_of-IsField (Cell.string none) h = tt
field_of-IsField (Cell.string (some b)) h = h
field_of-IsField (Cell.varbinary none) h = tt
field_of-IsField (Cell.varbinary (some b)) h = h

pub fields_of-IsField : (cs : List Cell) → All IsCell cs → All IsField (fields_of cs)
fields_of-IsField [] h = tt
fields_of-IsField (c ∷ cs) (h, hs) = (field_of-IsField c h, fields_of-IsField cs hs)

-- The rows at table `k`, which is `t`.
abbrev pub rows_at : VoltResponseInfo → List VoltTable → ℕ → VoltTable → VoltRows
rows_at info ts k t = record { volt_response = info; tables = set ts k t; table_index = pos k }

pub table-rows_at :
    (info : VoltResponseInfo) (ts : List VoltTable) (k : ℕ) (t w : VoltTable)
    → get_elem? ts k ≡ some w
    → table (rows_at info ts k t) ≡ some t
unfolding table index
table-rows_at info ts k t w there = get_elem?-set_self ts k t w there

-- A call on the current table replaces it.
pub on_table-rows_at :
    {A : Type 0} (m : M VoltTable A) (info : VoltResponseInfo) (ts : List VoltTable) (k : ℕ)
    (t u w : VoltTable) (a : A)
    → get_elem? ts k ≡ some w
    → m t ≡ ok a u
    → on_table m (rows_at info ts k t) ≡ ok a (rows_at info ts k u)
unfolding on_table run_at keep_table put_table
on_table-rows_at m info ts k t u w a there e =
    ap (run_at m (rows_at info ts k t)) (table-rows_at info ts k t w there)
    ∙ ap (keep_table (rows_at info ts k t)) e
    ∙ ap (λ us. ok a (record { volt_response = info; tables = us; table_index = pos k }))
        (set-set ts k t u)

-- What is known of the offsets of a row that is read from the left.
abbrev pub Known : List Field → Option (List ℤ) → Type 0
Known fs o = (o ≡ none) ⊎ (o ≡ some (pos 0 ∷ ends 0 fs))

abbrev pub with_offsets : VoltTable → Option (List ℤ) → VoltTable
with_offsets t o = record t { column_offsets = o }

-- One column of a row, whose offsets are known from then on.
get_bytes-Known :
    (t : VoltTable) (fs : List Field) (o : Option (List ℤ)) (i : ℕ) (f : Field)
    → IsRow fs t
    → Known fs o
    → get_elem? fs i ≡ some f
    → i + 1 < 2 ^ 15
    → get_bytes t.row_index (pos i) (with_offsets t o)
      ≡ ok (bytes_of f) (with_offsets t (some (pos 0 ∷ ends 0 fs)))
get_bytes-Known t fs o i f v known e small =
    let v' : IsRow fs (with_offsets t o) = record {
      count = v.count;
      types = v.types;
      current = v.current;
      few = v.few;
      fields = v.fields;
      small = v.small;
    } in
    elim known [
      | inl ne ↦ get_bytes-column (with_offsets t o) fs i f v' ne e small
      | inr eq ↦
          get_bytes-known (with_offsets t o) fs i f v' eq e small
          ∙ ap (λ p. ok (bytes_of f) (with_offsets t p)) eq
    ]

at_index_lem :
    (pre post : List Cell) (c : Cell)
    → get_elem? (fields_of (pre ++ (c ∷ post))) (length pre) ≡ some (field_of c)
at_index_lem [] post c = refl
at_index_lem (p ∷ pre) post c = at_index_lem pre post c

module _ (info : VoltResponseInfo) (ts : List VoltTable) (k : ℕ) (w t : VoltTable) (cs : List Cell)
    (there : get_elem? ts k ≡ some w) (v : IsRow (fields_of cs) t) where
  pub column_bytes-cell :
      (o : Option (List ℤ)) (i : ℕ) (c : Cell)
      → Known (fields_of cs) o
      → get_elem? (fields_of cs) i ≡ some (field_of c)
      → i + 1 < 2 ^ 15
      → column_bytes (pos i) (rows_at info ts k (with_offsets t o))
        ≡ ok
            (bytes_of (field_of c))
            (rows_at info ts k (with_offsets t (some (pos 0 ∷ ends 0 (fields_of cs)))))
  unfolding column_bytes current_bytes
  column_bytes-cell o i c known e small =
      on_table-rows_at (current_bytes (pos i)) info ts k (with_offsets t o)
        (with_offsets t (some (pos 0 ∷ ends 0 (fields_of cs)))) w (bytes_of (field_of c)) there
        (get_bytes-Known t (fields_of cs) o i (field_of c) v known e small)

  -- The rest of the loop, behind the columns `pre`.
  Filled : List Cell → List Cell → Option (List ℤ) → Type 0
  Filled pre post o =
      (p : Option (List ℤ)) × (Known (fields_of cs) p
        × (values_from (length post) (map type_of (fields_of post)) (length pre)
              (rows_at info ts k (with_offsets t o))
            ≡ ok (map datum_of post) (rows_at info ts k (with_offsets t p))))

  after_cell-rows_at :
      (c : Cell) (o p : Option (List ℤ))
      → after_cell c (rows_at info ts k (with_offsets t o)) (rows_at info ts k (with_offsets t p))
        ≡ rows_at info ts k (with_offsets t (after_cell c o p))
  after_cell-rows_at c o p = elim (Bool-cases (is_null c)) [ inl e ↦ rw e | inr e ↦ rw e ]

  after_cell-Known :
      (c : Cell) (o : Option (List ℤ))
      → Known (fields_of cs) o
      → Known (fields_of cs) (after_cell c o (some (pos 0 ∷ ends 0 (fields_of cs))))
  after_cell-Known c o h = elim (Bool-cases (is_null c)) [
    | inl e ↦ rw e h
    | inr e ↦ rw e (inr refl)
  ]

  values_from-cells :
      (pre post : List Cell) (o : Option (List ℤ))
      → pre ++ post ≡ cs
      → All IsCell post
      → Known (fields_of cs) o
      → Filled pre post o
  unfolding values_from Filled
  values_from-cells pre [] o e h known = (o, (known, refl))
  values_from-cells pre (c ∷ post) o e (h, hs) known =
      let end : Option (List ℤ) = some (pos 0 ∷ ends 0 (fields_of cs)) in
      let len : length (pre ++ (c ∷ post)) ≡ length (fields_of cs) =
        ap length e ∙ sym (length-map field_of cs) in
      let small : length pre + 1 < 2 ^ 15 =
        omega (arith, v.few, len, length-append pre (c ∷ post)) in
      let at : get_elem? (fields_of cs) (length pre) ≡ some (field_of c) =
        subst (λ xs. get_elem? (fields_of xs) (length pre) ≡ some (field_of c)) e
          (at_index_lem pre post c) in
      let one : value_at (type_of (field_of c)) (length pre) (rows_at info ts k (with_offsets t o))
          ≡ ok (datum_of c) (rows_at info ts k (with_offsets t (after_cell c o end))) =
        value_at-cell c (length pre) (rows_at info ts k (with_offsets t o))
          (rows_at info ts k (with_offsets t end)) h (omega arith)
          (column_bytes-cell o (length pre) c known at small)
        ∙ ap (ok (datum_of c)) (after_cell-rows_at c o end) in
      let filled : Filled (pre ++ (c ∷ [])) post (after_cell c o end) =
        values_from-cells (pre ++ (c ∷ [])) post (after_cell c o end)
          (append_assoc pre (c ∷ []) post ∙ e) hs (after_cell-Known c o known) in
      let (p, (known', rest)) = filled in
      let sum : length (pre ++ (c ∷ [])) ≡ suc (length pre) =
        omega (arith, length-append pre (c ∷ [])) in
      let rest' =
        subst
          (λ n.
            values_from (length post) (map type_of (fields_of post)) n
              (rows_at info ts k (with_offsets t (after_cell c o end)))
            ≡ ok (map datum_of post) (rows_at info ts k (with_offsets t p)))
          sum rest in
      let types : List ℤ = map type_of (fields_of post) in
      (
        p,
        (
          known',
          ap
                (λ r.
                  bind r (λ x.
                    values_from (length post) types (suc (length pre)) >>= λ xs. pure (x ∷ xs)))
                one
              ∙ ap (λ r. bind r (λ xs. pure (datum_of c ∷ xs))) rest',
        ),
      )

  -- The whole loop, on a row whose offsets are not known yet.
  pub values_from-row :
      All IsCell cs
      → (p : Option (List ℤ)) × (values_from
            (length cs)
            (map type_of (fields_of cs))
            0
            (rows_at info ts k (with_offsets t none))
          ≡ ok (map datum_of cs) (rows_at info ts k (with_offsets t p)))
  unfolding Filled
  values_from-row h =
      let filled : Filled [] cs none = values_from-cells [] cs none refl h (inl refl) in
      let (p, (known, e)) = filled in (p, e)
