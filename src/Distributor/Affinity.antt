-- ===== src/Distributor/Affinity.antt =====
-- The choice of a node by client affinity (getConnByCA, voltdbclient/client_affinity.go) and the
-- type procedure (voltdbclient/distributor.go). A node connection is known by a number.
use voltdb_client_go.Common.{
  ℕ, suc, ◌%◌, if◌then◌else◌, Bool, true, not, ◌&&◌, ℤ, pos, negsuc, eqb_ℤ, ltb_ℤ, Option, none,
  some, List, [], ◌∷◌, length, get_elem?, Error,
}
use voltdb_client_go.Table.{bytes_eq}
use voltdb_client_go.Wire.Value.{Value}
use voltdb_client_go.Invocation.{ProcedureInvocation}
use voltdb_client_go.Hashinator.{Token2Partition, get_hashed_partition_for_parameter}

pub record Procedure : Type 0 where
  pub single_partition : Bool
  pub read_only : Bool
  pub partition_parameter : ℤ
  pub partition_parameter_type : ℤ

unfoldable pub set_defaults : Procedure → Procedure
set_defaults proc =
    if not proc.single_partition
    then record proc { partition_parameter = negsuc 0; partition_parameter_type = negsuc 0 }
    else proc

-- What the method of the interface hashinator does.
pub data Hashed : Type 0 where
  partition : ℤ → Hashed
  failed : Error → Hashed
  panicked : Hashed

abbrev pub Hashinator : Type 0
Hashinator = ℤ → Value → Hashed

unfoldable pub found : Option ℤ → Hashed
found none = Hashed.panicked
found (some p) = Hashed.partition p

unfoldable pub hashinator_elastic : (List ℕ → ℕ) → List Token2Partition → Hashinator
unfolding found
hashinator_elastic murmur tp type v = found (get_hashed_partition_for_parameter murmur tp v)

-- The maps of the loop.
unfoldable pub find_procedure : List ℕ → List (List ℕ × Procedure) → Option Procedure
find_procedure name [] = none
find_procedure name (p ∷ ps) = if bytes_eq p.0 name then some p.1 else find_procedure name ps

unfoldable pub find_replicas : ℤ → List (ℤ × List ℕ) → List ℕ
find_replicas k [] = []
find_replicas k (p ∷ ps) = if eqb_ℤ p.0 k then p.1 else find_replicas k ps

unfoldable pub find_master : ℤ → List (ℤ × ℕ) → Option ℕ
find_master k [] = none
find_master k (p ∷ ps) = if eqb_ℤ p.0 k then some p.1 else find_master k ps

-- pi.params[i], which panics out of range.
unfoldable pub get_partition_param_value : ProcedureInvocation → ℤ → Option Value
get_partition_param_value pi (pos i) = get_elem? pi.params i
get_partition_param_value pi (negsuc i) = none

-- What the call finds in the world: rand.Intn before it is reduced, and what each question for back
-- pressure is answered, the questions of one call being told apart by a number.
pub record World : Type 0 where
  pub rand : ℕ
  pub has_bp : ℕ → ℕ → Bool

-- The results of getConnByCA.
pub record Choice : Type 0 where
  pub cxn : Option ℕ
  pub backpressure : Bool
  pub err : Option Error

-- The first of the replicas without back pressure, and `cxn` if there is none.
unfoldable pub first_free : World → ℕ → List ℕ → ℕ → ℕ
first_free w k [] cxn = cxn
first_free w k (nc ∷ ncs) cxn =
    let rest = first_free w (suc k) ncs cxn in if not (w.has_bp k nc) then nc else rest

unfoldable pub pick_free : World → List ℕ → ℕ → ℕ
unfolding first_free
pick_free w replicas cxn = if w.has_bp 0 cxn then first_free w 1 replicas cxn else cxn

unfoldable pub choose : World → ℕ → ℕ → Choice
choose w k cxn = record { cxn = some cxn; backpressure = w.has_bp k cxn; err = none }

unfoldable pub no_choice : Option Error → Choice
no_choice e = record { cxn = none; backpressure = true; err = e }

-- The case of the replicas, with the one that was drawn.
unfoldable pub pick_among : World → List ℕ → Option ℕ → Choice
unfolding pick_free choose no_choice
pick_among w replicas none = no_choice none
pick_among w replicas (some cxn) = choose w (suc (length replicas)) (pick_free w replicas cxn)

unfoldable pub pick_replica : World → List ℕ → Choice
unfolding pick_among
pick_replica w replicas = pick_among w replicas (get_elem? replicas (w.rand % length replicas))

unfoldable pub pick_master : World → Option ℕ → Choice
unfolding choose no_choice
pick_master w none = no_choice none
pick_master w (some cxn) = choose w 0 cxn

-- The connection's maps and its flag sendReadsToReplicasBytDefaultIfCAEnabled.
pub record Topology : Type 0 where
  pub hnator : Hashinator
  pub partition_masters : List (ℤ × ℕ)
  pub partition_replicas : List (ℤ × List ℕ)
  pub procedure_infos : List (List ℕ × Procedure)
  pub reads_to_replicas : Bool

-- With the hashed partition known.
unfoldable pub pick : World → Topology → Procedure → Hashed → Option Choice
unfolding pick_replica pick_master no_choice
pick w t proc Hashed.panicked = none
pick w t proc (Hashed.failed e) = some (no_choice (some e))
pick w t proc (Hashed.partition p) = some (
    if proc.single_partition && proc.read_only && t.reads_to_replicas
    then pick_replica w (find_replicas p t.partition_replicas)
    else pick_master w (find_master p t.partition_masters))

unfoldable pub hash_param : Topology → Procedure → Option Value → Hashed
hash_param t proc none = Hashed.panicked
hash_param t proc (some v) = t.hnator proc.partition_parameter_type v

-- MPInitPID stands for a procedure that is not bound to one partition.
unfoldable pub hashed_partition : Topology → Procedure → ProcedureInvocation → Hashed
unfolding hash_param get_partition_param_value
hashed_partition t proc pi =
    if proc.single_partition && ltb_ℤ proc.partition_parameter (pos (length pi.params))
    then hash_param t proc (get_partition_param_value pi proc.partition_parameter)
    else Hashed.partition (pos 16383)

unfoldable pub pick_for : World → Topology → ProcedureInvocation → Option Procedure → Option Choice
unfolding pick hashed_partition no_choice
pick_for w t pi none = some (no_choice none)
pick_for w t pi (some proc) = pick w t proc (hashed_partition t proc pi)

-- `none` where the code panics.
unfoldable pub get_conn_by_ca : World → Topology → ProcedureInvocation → Option Choice
unfolding pick_for
get_conn_by_ca w t pi = pick_for w t pi (find_procedure pi.query t.procedure_infos)
