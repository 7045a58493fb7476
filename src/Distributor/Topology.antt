-- ===== src/Distributor/Topology.antt =====
-- The topology and the catalog of procedures, read from rows (updateAffinityTopology and
-- updateProcedurePartitioning, voltdbclient/client_affinity.go; newHashinatorElastic,
-- voltdbclient/hashinator.go). gzip, and JSON with strconv, are parameters. The loops over the rows
-- run on fuel: the rows that the table has.
use voltdb_client_go.Common.{
  ℕ, zero, suc, if◌then◌else◌, Bool, true, false, ℤ, pos, negsuc, Option, none, some, List, [], ◌∷◌,
  Error, not_topology, legacy_hashinator, incomplete_topology, bad_hash_config, Outcome, ok, err,
  panic, M, ◌>>=◌, ◌>>◌, pure, fail, panics, guard,
}
use voltdb_client_go.Table.{VoltTable, bytes_eq}
use voltdb_client_go.Response.{VoltRows}
use voltdb_client_go.Hashinator.{Token2Partition, unmarshal_json_config}
use voltdb_client_go.Rows.{
  Datum, is_valid_table, table, advance_row, advance_table, advance_to_table, get_integer,
  get_string, get_varbinary,
}
use voltdb_client_go.Distributor.Affinity.{Procedure, set_defaults}
mod Tests

-- "Elastic"
abbrev pub elastic : List ℕ
elastic = b'E' ∷ b'l' ∷ b'a' ∷ b's' ∷ b't' ∷ b'i' ∷ b'c' ∷ []

-- panicIfnotNil on the error of a getter
unfoldable pub no_error : {A : Type 0} → Outcome VoltRows A → Outcome VoltRows A
no_error (ok a s) = ok a s
no_error (err e s) = panic
no_error panic = panic

unfoldable pub must : {A : Type 0} → M VoltRows A → M VoltRows A
unfolding no_error
must m s = no_error (m s)

-- The type assertions, which panic on any other dynamic type and on nil.
unfoldable pub as_string : Datum → M VoltRows (List ℕ)
as_string (Datum.string b) = pure b
as_string _ = panics

unfoldable pub as_bytes : Datum → M VoltRows (List ℕ)
as_bytes (Datum.varbinary b) = pure b
as_bytes _ = panics

unfoldable pub as_int32 : Datum → M VoltRows ℤ
as_int32 (Datum.integer v) = pure v
as_int32 _ = panics

-- The rows of the current table.
unfoldable pub row_count : VoltRows → ℕ
unfolding table
row_count vr = elim (table vr) [
  | none ↦ 0
  | some t ↦ (elim t.num_rows [ pos n ↦ n | negsuc n ↦ 0 ])
]

-- A round of the loop over the partitions: no connection is ever appended for a site.
unfoldable pub read_partition : M VoltRows ℤ
unfolding must as_int32
read_partition = do
  partition ← must (get_integer (pos 0))
  _ ← must (get_string (pos 1))
  as_int32 partition

unfoldable pub partitions : ℕ → List (ℤ × List ℕ) → M VoltRows (List (ℤ × List ℕ))
unfolding read_partition
partitions zero replicas = pure replicas
partitions (suc n) replicas = advance_row >>= λ more.
    if more
    then (read_partition >>= λ partition. partitions n ((partition, []) ∷ replicas))
    else pure replicas

-- `rows.AdvanceToTable(0)` and the loop.
unfoldable pub read_partitions : M VoltRows (List (ℤ × List ℕ))
unfolding partitions row_count
read_partitions vr = (advance_to_table (pos 0) >>= λ _ s. partitions (suc (row_count s)) [] s) vr

unfoldable pub or_bad_config : Option (List Token2Partition) → M VoltRows (List Token2Partition)
or_bad_config none = fail bad_hash_config
or_bad_config (some tp) = pure tp

module _ (gunzip : List ℕ → Option (List ℕ))
    (unmarshal : List ℕ → Option (List Token2Partition)) where
  -- newHashinatorElastic with JSONFormat and cooked; the pairs are those of the map in the order in
  -- which the loop meets them.
  unfoldable pub new_hashinator_elastic : List ℕ → Option (List Token2Partition)
  new_hashinator_elastic config = elim (gunzip config) [
    | none ↦ none
    | some json ↦ (elim (unmarshal json) [
      | none ↦ none
      | some sk ↦ some (unmarshal_json_config sk)
    ])
  ]

  -- The switch on the type of the hash function.
  unfoldable pub hashinator_from : Datum → Datum → M VoltRows (List Token2Partition)
  unfolding as_string as_bytes new_hashinator_elastic or_bad_config
  hashinator_from hash_type hash_config = do
    name ← as_string hash_type
    guard (bytes_eq name elastic) legacy_hashinator
    config ← as_bytes hash_config
    or_bad_config (new_hashinator_elastic config)

  -- The second table holds the type and its configuration.
  unfoldable pub read_hashinator : M VoltRows (List Token2Partition)
  unfolding must hashinator_from
  read_hashinator = do
    hash_type ← must (get_string (pos 0))
    hash_config ← must (get_varbinary (pos 1))
    hashinator_from hash_type hash_config

  unfoldable pub update_affinity_topology : M VoltRows (List Token2Partition × List (ℤ × List ℕ))
  unfolding read_hashinator read_partitions
  update_affinity_topology vr =
      (do
        guard (is_valid_table vr) not_topology
        more ← advance_table
        guard more legacy_hashinator
        row ← advance_row
        guard row incomplete_topology
        tp ← read_hashinator
        replicas ← read_partitions
        pure (tp, replicas))
        vr

module _ (unmarshal : List ℕ → Option Procedure) where
  unfoldable pub parsed : List ℕ → M VoltRows Procedure
  parsed remarks = elim (unmarshal remarks) [ none ↦ panics | some proc ↦ pure (set_defaults proc) ]

  unfoldable pub read_procedure : M VoltRows (List ℕ × Procedure)
  unfolding must as_bytes as_string parsed
  read_procedure = do
    remarks ← must (get_varbinary (pos 6))
    procedure_name ← must (get_string (pos 2))
    text ← as_bytes remarks
    proc ← parsed text
    name ← as_string procedure_name
    pure (name, proc)

  -- The newest entry of a name stands first.
  unfoldable pub procedures : ℕ → List (List ℕ × Procedure) → M VoltRows (List (List ℕ × Procedure))
  unfolding read_procedure
  procedures zero infos = pure infos
  procedures (suc n) infos = advance_row >>= λ more.
      if more then (read_procedure >>= λ proc. procedures n (proc ∷ infos)) else pure infos

  unfoldable pub update_procedure_partitioning : M VoltRows (List (List ℕ × Procedure))
  unfolding procedures row_count
  update_procedure_partitioning vr = procedures (suc (row_count vr)) [] vr
