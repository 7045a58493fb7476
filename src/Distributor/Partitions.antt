-- ===== src/Distributor/Partitions.antt =====
-- updateAffinityTopology (voltdbclient/client_affinity.go) on a topology as the server sends it.
use voltdb_client_go.Common.{
  ℕ, zero, suc, ◌+◌, ◌<◌, ◌^◌, ◌≡◌, inl, inr, refl, ap, ◌∙◌, arith, Bool, true, false,
  if◌then◌else◌, ℤ, pos, negsuc, Option, none, some, List, [], ◌∷◌, length, get_elem?, ok, M, ◌>>=◌,
  >>=-ok, pure, bind, map, All, length-map, guard, incomplete_topology, legacy_hashinator, not,
  ◌||◌, ltb_ℤ,
}
use voltdb_client_go.Table
use voltdb_client_go.Table.{VoltTable, bytes_eq, index}
use voltdb_client_go.Table.Offsets.{IsRow, bytes_of, ends}
use voltdb_client_go.Response.{VoltResponseInfo, VoltRows}
use voltdb_client_go.Hashinator.{Token2Partition}
use voltdb_client_go.Rows.{
  Datum, column_bytes, sized, integer_of, read_prefixed, get_integer, get_string, get_varbinary,
  advance_row, advance_table, advance_to_table, is_valid_table, table,
}
use voltdb_client_go.Rows.Cells.{Cell, field_of, IsCell}
use voltdb_client_go.Rows.Getters.{integer-Yields, prefixed-Yields}
use voltdb_client_go.Rows.Fill.{
  fields_of, rows_at, on_table-rows_at, Known, with_offsets, column_bytes-cell,
}
use voltdb_client_go.Rows.View.{
  IsTableView, row_at, advance_end, advance_on, row_at-IsTableView, row_at-IsRow,
  with_offsets-IsTableView,
}
use voltdb_client_go.Distributor.Topology.{
  elastic, must, no_error, as_string, as_bytes, as_int32, read_partition, partitions,
  read_partitions, row_count, or_bad_config, new_hashinator_elastic, hashinator_from,
  read_hashinator, update_affinity_topology,
}

-- A row of the first table: a partition, its sites and more.
pub record Site : Type 0 where
  pub partition : ℤ
  pub sites : List ℕ
  pub more : List Cell

abbrev pub cells_of : Site → List Cell
cells_of r = Cell.integer (some r.partition) ∷ Cell.string (some r.sites) ∷ r.more

-- A getter at a column of a row.
module _ (info : VoltResponseInfo) (ts : List VoltTable) (k : ℕ) (w t : VoltTable) (cs : List Cell)
    (there : get_elem? ts k ≡ some w) (v : IsRow (fields_of cs) t) where
  abbrev at_row : Option (List ℤ) → VoltRows
  at_row o = rows_at info ts k (with_offsets t o)

  abbrev known : Option (List ℤ)
  known = some (pos 0 ∷ ends 0 (fields_of cs))

  get-cell :
      (f : List ℕ → M VoltRows Datum) (o : Option (List ℤ)) (i : ℕ) (c : Cell) (d : Datum)
      → Known (fields_of cs) o
      → get_elem? (fields_of cs) i ≡ some (field_of c)
      → i + 1 < 2 ^ 15
      → ((s : VoltRows) → f (bytes_of (field_of c)) s ≡ ok d s)
      → (column_bytes (pos i) >>= f) (at_row o) ≡ ok d (at_row known)
  get-cell f o i c d h e small reads =
      >>=-ok (column_bytes (pos i)) f {s = at_row o}
        (column_bytes-cell info ts k w t cs there v o i c h e small)
      ∙ reads (at_row known)

-- A round of the loop, on a row of its kind.
module _ (info : VoltResponseInfo) (ts : List VoltTable) (k : ℕ) (w t : VoltTable) (r : Site)
    (there : get_elem? ts k ≡ some w) (v : IsRow (fields_of (cells_of r)) t)
    (cells : All IsCell (cells_of r)) where
  partition_read :
      read_partition (rows_at info ts k (with_offsets t none))
      ≡ ok r.partition
          (rows_at info ts k (with_offsets t (some (pos 0 ∷ ends 0 (fields_of (cells_of r))))))
  unfolding read_partition must no_error get_integer get_string as_int32
  partition_read =
      let cs : List Cell = cells_of r in
      let o : Option (List ℤ) = some (pos 0 ∷ ends 0 (fields_of cs)) in
      let s : VoltRows = rows_at info ts k (with_offsets t none) in
      let u : VoltRows = rows_at info ts k (with_offsets t o) in
      let (number, text_and_more) = cells in
      let one : get_integer (pos 0) s ≡ ok (Datum.integer r.partition) u =
        get-cell info ts k w t cs there v (sized 4 integer_of (pos 0)) none 0
          (Cell.integer (some r.partition)) (Datum.integer r.partition) (inl refl) refl
          (omega arith) (integer-Yields (some r.partition) number (pos 0)) in
      let two : get_string (pos 1) u ≡ ok (Datum.string r.sites) u =
        get-cell info ts k w t cs there v (read_prefixed Datum.string) o 1
          (Cell.string (some r.sites)) (Datum.string r.sites) (inr refl) refl (omega arith)
          (prefixed-Yields Datum.string r.sites) in
      ap (λ x. bind (no_error x) (λ p. must (get_string (pos 1)) >>= λ _. as_int32 p)) one
      ∙ ap (λ x. bind (no_error x) (λ _. as_int32 (Datum.integer r.partition))) two

-- The map that the loop makes: the newest entry stands first.
abbrev pub bare : List Site → List (ℤ × List ℕ) → List (ℤ × List ℕ)
bare [] acc = acc
bare (r ∷ rs) acc = bare rs ((r.partition, []) ∷ acc)

module _ (info : VoltResponseInfo) (ts : List VoltTable) (k : ℕ) (w : VoltTable)
    (there : get_elem? ts k ≡ some w) where
  abbrev here : VoltTable → VoltRows
  here u = rows_at info ts k u

  moved-here :
      (t u : VoltTable) (b : Bool)
      → Table.advance_row t ≡ ok b u
      → advance_row (here t) ≡ ok b (here u)
  unfolding advance_row
  moved-here t u b e = on_table-rows_at Table.advance_row info ts k t u w b there e

  -- The whole loop, when it has more rounds than there are rows.
  pub partitions-view :
      (types : List ℤ) (rs : List Site) (t : VoltTable) (n : ℕ) (acc : List (ℤ × List ℕ))
      → IsTableView types (map cells_of rs) t
      → length rs < n
      → (u : VoltTable) × (partitions n acc (here t) ≡ ok (bare rs acc) (here u))
  unfolding partitions
  partitions-view types rs t zero acc v enough = absurd (omega arith)
  partitions-view types [] t (suc n) acc v enough = (
    t,
    >>=-ok advance_row
        (λ more.
          if more
          then (read_partition >>= λ partition. partitions n ((partition, []) ∷ acc))
          else pure acc)
        {s = here t} (moved-here t t false (advance_end types t v)),
  )
  partitions-view types (r ∷ rs) t (suc n) acc v enough =
      let rest : List (List Cell) = map cells_of rs in
      let row : VoltTable = row_at t v.seen in
      let o : Option (List ℤ) = some (pos 0 ∷ ends 0 (fields_of (cells_of r))) in
      let (typed, typed_rest) = v.typed in
      let (u, later) =
        partitions-view types rs (with_offsets row o) n ((r.partition, []) ∷ acc)
          (with_offsets-IsTableView types rest row o
            (row_at-IsTableView types (cells_of r) rest t v))
          (omega arith) in
      (
        u,
        >>=-ok advance_row
              (λ more.
                if more
                then (read_partition >>= λ partition. partitions n ((partition, []) ∷ acc))
                else pure acc)
              {s = here t} (moved-here t row true (advance_on types (cells_of r) rest t v))
            ∙ >>=-ok read_partition (λ partition. partitions n ((partition, []) ∷ acc))
                {s = here row}
                (partition_read info ts k w row r there (row_at-IsRow types (cells_of r) rest t v)
                  typed.cells)
            ∙ later,
      )

-- The first row of the second table: the kind of the hash function and its configuration.
abbrev pub hash_cells : List ℕ → List Cell → List Cell
hash_cells config more = Cell.string (some elastic) ∷ Cell.varbinary (some config) ∷ more

module _ (gunzip : List ℕ → Option (List ℕ)) (unmarshal : List ℕ → Option (List Token2Partition))
    (info : VoltResponseInfo) (ts : List VoltTable) (k : ℕ) (w t : VoltTable) (config : List ℕ)
    (more : List Cell) (tp : List Token2Partition) (there : get_elem? ts k ≡ some w)
    (v : IsRow (fields_of (hash_cells config more)) t)
    (read : new_hashinator_elastic gunzip unmarshal config ≡ some tp) where
  hashinator_read :
      read_hashinator gunzip unmarshal (rows_at info ts k (with_offsets t none))
      ≡ ok tp (
          rows_at info ts k
            (with_offsets t (some (pos 0 ∷ ends 0 (fields_of (hash_cells config more))))))
  unfolding read_hashinator hashinator_from must no_error get_varbinary get_string as_string
      as_bytes or_bad_config bytes_eq
  hashinator_read =
      let cs : List Cell = hash_cells config more in
      let o : Option (List ℤ) = some (pos 0 ∷ ends 0 (fields_of cs)) in
      let s : VoltRows = rows_at info ts k (with_offsets t none) in
      let u : VoltRows = rows_at info ts k (with_offsets t o) in
      let one : get_string (pos 0) s ≡ ok (Datum.string elastic) u =
        get-cell info ts k w t cs there v (read_prefixed Datum.string) none 0
          (Cell.string (some elastic)) (Datum.string elastic) (inl refl) refl (omega arith)
          (prefixed-Yields Datum.string elastic) in
      let two : get_varbinary (pos 1) u ≡ ok (Datum.varbinary config) u =
        get-cell info ts k w t cs there v (read_prefixed Datum.varbinary) o 1
          (Cell.varbinary (some config)) (Datum.varbinary config) (inr refl) refl (omega arith)
          (prefixed-Yields Datum.varbinary config) in
      let from : Datum → Datum → M VoltRows (List Token2Partition) =
        hashinator_from gunzip unmarshal in
      ap (λ x. bind (no_error x) (λ a. must (get_varbinary (pos 1)) >>= λ b. from a b)) one
      ∙ ap (λ x. bind (no_error x) (λ b. from (Datum.string elastic) b)) two
      ∙ ap (λ x. or_bad_config x u) read

row_count-total :
    (info : VoltResponseInfo) (t : VoltTable) (ts : List VoltTable) (n : ℕ)
    → t.num_rows ≡ pos n
    → row_count (record { volt_response = info; tables = t ∷ ts; table_index = pos 0 }) ≡ n
unfolding row_count table index
row_count-total info t ts n e = ap (λ z. elim z [ pos m ↦ m | negsuc m ↦ 0 ]) e

-- The cursor of the tables, of which there are two.
to_table_one :
    (info : VoltResponseInfo) (ts : List VoltTable)
    → info.num_tables ≡ pos 2
    → advance_table (record { volt_response = info; tables = ts; table_index = pos 0 })
      ≡ ok true (record { volt_response = info; tables = ts; table_index = pos 1 })
unfolding advance_table advance_to_table
to_table_one info ts two =
    let s : VoltRows = record { volt_response = info; tables = ts; table_index = pos 0 } in
    ap
      (λ n.
        if not (ltb_ℤ (pos 1) n) || ltb_ℤ (pos 1) (pos 0)
        then ok false s
        else ok true (record s { table_index = pos 1 }))
      two

to_table_zero :
    (info : VoltResponseInfo) (ts : List VoltTable)
    → info.num_tables ≡ pos 2
    → advance_to_table (pos 0) (record { volt_response = info; tables = ts; table_index = pos 1 })
      ≡ ok true (record { volt_response = info; tables = ts; table_index = pos 0 })
unfolding advance_to_table
to_table_zero info ts two =
    let s : VoltRows = record { volt_response = info; tables = ts; table_index = pos 1 } in
    ap
      (λ n.
        if not (ltb_ℤ (pos 0) n) || ltb_ℤ (pos 0) (pos 0)
        then ok false s
        else ok true (record s { table_index = pos 0 }))
      two

-- On two tables, the first with a row for each partition and the second with an elastic hash
-- function whose configuration can be read, updateAffinityTopology returns the hash function and
-- enters each partition, without any connection.
pub update_affinity_topology-partitions :
    (gunzip : List ℕ → Option (List ℕ)) (unmarshal : List ℕ → Option (List Token2Partition))
    (info : VoltResponseInfo) (types types' : List ℤ) (rs : List Site) (t u : VoltTable)
    (config : List ℕ) (more : List Cell) (others : List (List Cell)) (tp : List Token2Partition)
    → info.num_tables ≡ pos 2
    → IsTableView types (map cells_of rs) t
    → IsTableView types' (hash_cells config more ∷ others) u
    → new_hashinator_elastic gunzip unmarshal config ≡ some tp
    → (s : VoltRows) × (update_affinity_topology gunzip unmarshal
          (record { volt_response = info; tables = t ∷ u ∷ []; table_index = pos 0 })
        ≡ ok (tp, bare rs []) s)
unfolding update_affinity_topology read_partitions is_valid_table advance_table advance_to_table
update_affinity_topology-partitions gunzip unmarshal info types types' rs t u config more others tp
      two v w read =
    let place : List VoltTable → ℤ → VoltRows =
      λ ts i. record { volt_response = info; tables = ts; table_index = i } in
    let hash : List Cell = hash_cells config more in
    let row : VoltTable = row_at u w.seen in
    let read_row : VoltTable = with_offsets row (some (pos 0 ∷ ends 0 (fields_of hash))) in
    let (typed, typed_rest) = w.typed in
    let after : List VoltTable = t ∷ read_row ∷ [] in
    let total : ℕ = v.seen + length (map cells_of rs) in
    let loop =
      partitions-view info after 0 t refl types rs t (suc total) [] v
        (omega (arith, length-map cells_of rs)) in
    let (end, looped) = loop in
    let third : List Token2Partition → M VoltRows (List Token2Partition × List (ℤ × List ℕ)) =
      λ tp'. read_partitions >>= λ replicas. pure (tp', replicas) in
    let second : Bool → M VoltRows (List Token2Partition × List (ℤ × List ℕ)) =
      λ b. guard b incomplete_topology >>= λ _. read_hashinator gunzip unmarshal >>= third in
    let first : Bool → M VoltRows (List Token2Partition × List (ℤ × List ℕ)) =
      λ b. guard b legacy_hashinator >>= λ _. advance_row >>= second in
    (
      rows_at info after 0 end,
      ap (λ x. bind x first) (to_table_one info (t ∷ u ∷ []) two)
          ∙ ap (λ x. bind x second)
              (moved-here info (t ∷ u ∷ []) 1 u refl u row true (advance_on types' hash others u w))
          ∙ ap (λ x. bind x third)
              (hashinator_read gunzip unmarshal info (t ∷ u ∷ []) 1 u row config more tp refl
                (row_at-IsRow types' hash others u w) read)
          ∙ ap (λ x. bind x (λ replicas. pure (tp, replicas)))
              (ap (λ x. bind x (λ _ s. partitions (suc (row_count s)) [] s))
                  (to_table_zero info after two)
                ∙ ap (λ n. partitions (suc n) [] (place after (pos 0)))
                    (row_count-total info t (read_row ∷ []) total v.total)
                ∙ looped),
    )
