-- ===== src/Distributor/Topology/Tests.antt =====
-- The theorems about topologies at concrete tables (voltdbclient/client_affinity.go).
use voltdb_client_go.Common.{
  ℕ, ◌^◌, ◌≡◌, refl, arith, true, false, ℤ, pos, negsuc, Option, none, some, List, [], ◌∷◌, ok,
}
use voltdb_client_go.Wire.Value.{Scalar, Value}
use voltdb_client_go.Invocation.{ProcedureInvocation}
use voltdb_client_go.Table.{VoltTable}
use voltdb_client_go.Response.{VoltResponseInfo, VoltRows, success}
use voltdb_client_go.Hashinator.{Token2Partition, unmarshal_json_config}
use voltdb_client_go.Rows.Cells.{Cell}
use voltdb_client_go.Rows.View.{IsTableView, encoded}
use voltdb_client_go.Distributor.Affinity.{Procedure, World, hashinator_elastic, get_conn_by_ca}
use voltdb_client_go.Distributor.Topology.{new_hashinator_elastic, update_affinity_topology}
use voltdb_client_go.Distributor.Partitions.{
  Site, hash_cells, bare, update_affinity_topology-partitions,
}
use voltdb_client_go.Distributor.Unrouted.{
  Ends, IsNoChoice, maps, update_affinity_topology-unrouted,
}

abbrev info : VoltResponseInfo
info = record {
  handle = pos 7;
  status = success;
  status_string = [];
  app_status = negsuc 127;
  app_status_string = [];
  cluster_round_trip_time = pos 12;
  num_tables = pos 2;
}

abbrev sites : List Site
sites =
    record { partition = pos 0; sites = b'1' ∷ []; more = [] }
    ∷ record { partition = pos 16383; sites = b'2' ∷ []; more = [] }
    ∷ []

abbrev site_types : List ℤ
site_types = pos 5 ∷ pos 9 ∷ []

abbrev hash_types : List ℤ
hash_types = pos 9 ∷ pos 25 ∷ []

abbrev config : List ℕ
config = 31 ∷ 139 ∷ []

-- A table in front of its first row.
abbrev fresh : List ℤ → ℤ → List (List ℕ) → VoltTable
fresh types n rows = record {
  column_count = pos 2;
  column_types = types;
  column_names = [];
  num_rows = n;
  rows = rows;
  row_index = negsuc 0;
  cn_to_ci = [];
  column_offsets = none;
}

abbrev site_table : VoltTable
site_table = fresh site_types (pos 2) (
    encoded (Cell.integer (some (pos 0)) ∷ Cell.string (some (b'1' ∷ [])) ∷ [])
    ∷ encoded (Cell.integer (some (pos 16383)) ∷ Cell.string (some (b'2' ∷ [])) ∷ [])
    ∷ [])

abbrev hash_table : VoltTable
hash_table = fresh hash_types (pos 1) (encoded (hash_cells config []) ∷ [])

site_table-IsTableView :
    IsTableView site_types
      ((Cell.integer (some (pos 0)) ∷ Cell.string (some (b'1' ∷ [])) ∷ [])
        ∷ (Cell.integer (some (pos 16383)) ∷ Cell.string (some (b'2' ∷ [])) ∷ [])
        ∷ [])
      site_table
site_table-IsTableView = record {
  seen = 0;
  count = refl;
  column_types = refl;
  few = omega arith;
  before = refl;
  total = refl;
  bounded = omega arith;
  left = refl;
  typed = (
    record {
      typed = refl;
      cells = ((omega arith, λ e. ground arith), (omega arith, tt));
      small = omega arith;
    },
    (
      record {
        typed = refl;
        cells = ((omega arith, λ e. ground arith), (omega arith, tt));
        small = omega arith;
      },
      tt,
    ),
  );
}

hash_table-IsTableView : IsTableView hash_types (hash_cells config [] ∷ []) hash_table
hash_table-IsTableView = record {
  seen = 0;
  count = refl;
  column_types = refl;
  few = omega arith;
  before = refl;
  total = refl;
  bounded = omega arith;
  left = refl;
  typed =
      (record { typed = refl; cells = (omega arith, (omega arith, tt)); small = omega arith }, tt);
}

-- A configuration that is its own JSON, of one pair.
abbrev plain : List ℕ → Option (List ℕ)
plain b = some b

abbrev one_token : List ℕ → Option (List Token2Partition)
one_token b = some (record { token = pos 5; partition = pos 0 } ∷ [])

abbrev topology : VoltRows
topology = record {
  volt_response = info;
  tables = site_table ∷ hash_table ∷ [];
  table_index = pos 0;
}

update_affinity_topology-partitions_example :
    (s : VoltRows) × (update_affinity_topology plain one_token topology
      ≡ ok
          (unmarshal_json_config (record { token = pos 5; partition = pos 0 } ∷ []), bare sites [])
          s)
unfolding new_hashinator_elastic
update_affinity_topology-partitions_example =
    update_affinity_topology-partitions plain one_token info site_types hash_types sites site_table
      hash_table config [] []
      (unmarshal_json_config (record { token = pos 5; partition = pos 0 } ∷ [])) refl
      site_table-IsTableView hash_table-IsTableView refl

abbrev vote : ProcedureInvocation
vote = record {
  handle = pos 7;
  is_query = false;
  query = b'V' ∷ [];
  params = Value.scalar (Scalar.int8 (pos 4)) ∷ [];
  response_ch = some 1;
  timeout = pos 1000;
  arc = none;
  async = false;
  slen = negsuc 0;
}

abbrev catalog : List (List ℕ × Procedure)
catalog =
    (
      b'V' ∷ [],
      record {
        single_partition = true;
        read_only = true;
        partition_parameter = pos 0;
        partition_parameter_type = pos 3;
      },
    )
    ∷ []

abbrev calm : World
calm = record { rand = 0; has_bp = λ k nc. false }

update_affinity_topology-unrouted_example :
    Ends
      (λ r.
        IsNoChoice
          (get_conn_by_ca calm (maps (hashinator_elastic (λ b. 2 ^ 40) []) r.1 catalog true) vote))
      (update_affinity_topology plain one_token topology)
update_affinity_topology-unrouted_example =
    update_affinity_topology-unrouted plain one_token topology calm
      (hashinator_elastic (λ b. 2 ^ 40) []) catalog true vote
