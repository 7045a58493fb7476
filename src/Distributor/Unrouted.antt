-- ===== src/Distributor/Unrouted.antt =====
-- The topology that updateAffinityTopology reads names no connection, so getConnByCA never finds a
-- node in it (voltdbclient/client_affinity.go).
use voltdb_client_go.Common.{
  ℕ, zero, suc, ◌≡◌, ◌⊎◌, inl, inr, refl, ap, Bool, true, false, Bool-cases, if◌then◌else◌, ◌&&◌, ℤ,
  pos, eqb_ℤ, Option, none, some, List, [], ◌∷◌, All, Error, Outcome, ok, err, panic, M, ◌>>=◌,
  pure, bind,
}
use voltdb_client_go.Invocation.{ProcedureInvocation}
use voltdb_client_go.Response.{VoltRows}
use voltdb_client_go.Hashinator.{Token2Partition}
use voltdb_client_go.Rows.{advance_row, advance_table, advance_to_table}
use voltdb_client_go.Distributor.Affinity.{
  Procedure, Hashed, Hashinator, World, Choice, Topology, find_replicas, find_master,
  find_procedure, no_choice, pick_among, pick_replica, pick_master, pick, pick_for,
  hashed_partition, get_conn_by_ca,
}
use voltdb_client_go.Distributor.Topology.{
  read_partition, partitions, read_partitions, read_hashinator, update_affinity_topology, row_count,
}

-- What holds of the value of a computation that returns one.
abbrev pub Ends : {A : Type 0} → (A → Type 0) → Outcome VoltRows A → Type 0
Ends P (ok a s) = P a
Ends P (err e s) = Unit {0}
Ends P panic = Unit {0}

Ends-bind :
    {A B : Type 0} (P : B → Type 0) (o : Outcome VoltRows A) (f : A → M VoltRows B)
    → ((a : A) (s : VoltRows) → Ends P (f a s))
    → Ends P (bind o f)
Ends-bind P (ok a s) f h = h a s
Ends-bind P (err e s) f h = tt
Ends-bind P panic f h = tt

Ends-then :
    {A B : Type 0} (P : A → Type 0) (Q : B → Type 0) (o : Outcome VoltRows A) (f : A → M VoltRows B)
    → Ends P o
    → ((a : A) (s : VoltRows) → P a → Ends Q (f a s))
    → Ends Q (bind o f)
Ends-then P Q (ok a s) f p h = h a s p
Ends-then P Q (err e s) f p h = tt
Ends-then P Q panic f p h = tt

Ends-if :
    {A : Type 0} (P : A → Type 0) (b : Bool) (m k : M VoltRows A) (s : VoltRows)
    → Ends P (m s)
    → Ends P (k s)
    → Ends P ((if b then m else k) s)
Ends-if P true m k s h j = h
Ends-if P false m k s h j = j

-- No partition has a replica.
abbrev IsBare : List (ℤ × List ℕ) → Type 0
IsBare = All (λ p. p.1 ≡ [])

partitions-IsBare :
    (n : ℕ) (replicas : List (ℤ × List ℕ)) (s : VoltRows)
    → IsBare replicas
    → Ends IsBare (partitions n replicas s)
unfolding partitions
partitions-IsBare zero replicas s h = h
partitions-IsBare (suc n) replicas s h = Ends-bind IsBare (advance_row s) _ (λ more t.
    Ends-if IsBare more (read_partition >>= λ p. partitions n ((p, []) ∷ replicas)) (pure replicas)
      t
      (Ends-bind IsBare (read_partition t) _
        (λ p u. partitions-IsBare n ((p, []) ∷ replicas) u (refl, h)))
      h)

read_partitions-IsBare : (s : VoltRows) → Ends IsBare (read_partitions s)
unfolding read_partitions
read_partitions-IsBare s =
    Ends-bind IsBare (advance_to_table (pos 0) s) (λ _ t. partitions (suc (row_count t)) [] t)
      (λ _ t. partitions-IsBare (suc (row_count t)) [] t tt)

-- The maps are such that no node is found.
find_replicas-IsBare : (k : ℤ) (ps : List (ℤ × List ℕ)) → IsBare ps → find_replicas k ps ≡ []
unfolding find_replicas
find_replicas-IsBare k [] h = refl
find_replicas-IsBare k (p ∷ ps) (e, h) = elim (Bool-cases (eqb_ℤ p.0 k)) [
  | inl hit ↦ rw hit e
  | inr miss ↦ rw miss (find_replicas-IsBare k ps h)
]

-- No connection is chosen, and back pressure is reported; or the call panics.
abbrev pub IsNoChoice : Option Choice → Type 0
IsNoChoice o = (o ≡ none) ⊎ ((e : Option Error) × (o ≡ some (no_choice e)))

-- The maps as the loop keeps them: no partition has a master.
abbrev pub maps : Hashinator → List (ℤ × List ℕ) → List (List ℕ × Procedure) → Bool → Topology
maps h replicas infos reads = record {
  hnator = h;
  partition_masters = [];
  partition_replicas = replicas;
  procedure_infos = infos;
  reads_to_replicas = reads;
}

IsNoChoice-if :
    (b : Bool) (c d : Choice)
    → c ≡ no_choice none
    → d ≡ no_choice none
    → IsNoChoice (some (if b then c else d))
IsNoChoice-if true c d e f = inr (none, ap some e)
IsNoChoice-if false c d e f = inr (none, ap some f)

pick-IsNoChoice :
    (w : World) (t : Topology) (proc : Procedure) (h : Hashed)
    → t.partition_masters ≡ []
    → IsBare t.partition_replicas
    → IsNoChoice (pick w t proc h)
unfolding pick pick_replica pick_among pick_master find_master
pick-IsNoChoice w t proc Hashed.panicked m b = inl refl
pick-IsNoChoice w t proc (Hashed.failed e) m b = inr (some e, refl)
pick-IsNoChoice w t proc (Hashed.partition p) m b =
    IsNoChoice-if (proc.single_partition && proc.read_only && t.reads_to_replicas) _ _
      (ap (pick_replica w) (find_replicas-IsBare p t.partition_replicas b))
      (ap (λ ms. pick_master w (find_master p ms)) m)

pick_for-IsNoChoice :
    (w : World) (t : Topology) (pi : ProcedureInvocation) (o : Option Procedure)
    → t.partition_masters ≡ []
    → IsBare t.partition_replicas
    → IsNoChoice (pick_for w t pi o)
unfolding pick_for
pick_for-IsNoChoice w t pi none m b = inr (none, refl)
pick_for-IsNoChoice w t pi (some proc) m b =
    pick-IsNoChoice w t proc (hashed_partition t proc pi) m b

-- Whatever rows a topology is read from: when updateAffinityTopology returns maps, getConnByCA chooses
-- no node for any invocation, with any hash function, catalog and state of the nodes.
pub update_affinity_topology-unrouted :
    (gunzip : List ℕ → Option (List ℕ)) (unmarshal : List ℕ → Option (List Token2Partition))
    (vr : VoltRows) (w : World) (h : Hashinator) (infos : List (List ℕ × Procedure)) (reads : Bool)
    (pi : ProcedureInvocation)
    → Ends
        (λ r. IsNoChoice (get_conn_by_ca w (maps h r.1 infos reads) pi))
        (update_affinity_topology gunzip unmarshal vr)
unfolding update_affinity_topology get_conn_by_ca
update_affinity_topology-unrouted gunzip unmarshal vr w h infos reads pi =
    let P : (List Token2Partition × List (ℤ × List ℕ)) → Type 0 =
      λ r. IsNoChoice (get_conn_by_ca w (maps h r.1 infos reads) pi) in
    Ends-bind P _ _ λ _ s1. Ends-bind P (advance_table s1) _ λ more s2. Ends-bind P _ _ λ _ s3.
      Ends-bind P (advance_row s3) _ λ row s4. Ends-bind P _ _ λ _ s5.
        Ends-bind P (read_hashinator gunzip unmarshal s5) _ λ tp s6.
          Ends-then IsBare P (read_partitions s6) _ (read_partitions-IsBare s6) λ replicas s7 bare.
            pick_for-IsNoChoice w (maps h replicas infos reads) pi (find_procedure pi.query infos)
              refl bare
