-- ===== src/Distributor/State.antt =====
-- The state of the distributor's `loop` (voltdbclient/distributor.go). A node connection and a
-- channel are known by a number; what the loop sends is a list of effects, the newest first.
use voltdb_client_go.Common.{ℕ, Bool, true, false, ℤ, pos, Option, none, List, [], ◌∷◌}
use voltdb_client_go.Invocation.{ProcedureInvocation}
use voltdb_client_go.Distributor.Affinity.{Hashinator, Procedure}

pub data Effect : Type 0 where
  submitted : ℕ → ProcedureInvocation → Effect  -- nc.submit(pi)
  to_all : ProcedureInvocation → Effect  -- c.allNcsPiCh <- pi
  asked_topo asked_stats asked_catalog : ℕ → Effect  -- system calls submitted to a node
  close_node drain_node : ℕ → Effect
  closed drained : Option ℕ → Effect  -- closeRespCh <- true, drainRespCh <- true

-- The variables of `loop`. A flag `..._open` says that the channel is not nil; `in_open` stands for
-- inPiCh, drainCh and closeCh, which become nil together.
pub record Loop : Type 0 where
  pub connected : List ℕ
  pub use_client_affinity : Bool
  pub reads_to_replicas : Bool
  pub in_open : Bool
  pub subscribed_connection : Option ℕ
  pub sub_topo_open : Bool
  pub topo_stats_open : Bool
  pub has_topo_stats : Bool
  pub pr_info_open : Bool
  pub fetched_catalog : Bool
  pub close_resp_ch : Option ℕ
  pub closing_ncs_open : Bool
  pub outstanding_close_count : ℤ
  pub draining : Bool
  pub drain_resp_ch : Option ℕ
  pub draining_ncs_open : Bool
  pub outstanding_drain_count : ℤ
  pub hnator : Option Hashinator
  pub partition_replicas : Option (List (ℤ × List ℕ))
  pub partition_masters : List (ℤ × ℕ)
  pub procedure_infos : Option (List (List ℕ × Procedure))
  pub effects : List Effect

pub data Next : Type 0 where
  running : Loop → Next
  stopped : Loop → Next
  crashed : Next

unfoldable pub continue : Next → (Loop → Next) → Next
continue (running l) k = k l
continue (stopped l) k = stopped l
continue crashed k = crashed

unfoldable pub emit : Effect → Loop → Loop
emit x l = record l { effects = x ∷ l.effects }

-- The variables at the start of the loop, for the nodes that `start` has connected.
unfoldable pub initial : List ℕ → Loop
initial connected = record {
  connected = connected;
  use_client_affinity = true;
  reads_to_replicas = false;
  in_open = true;
  subscribed_connection = none;
  sub_topo_open = false;
  topo_stats_open = false;
  has_topo_stats = false;
  pr_info_open = false;
  fetched_catalog = false;
  close_resp_ch = none;
  closing_ncs_open = false;
  outstanding_close_count = pos 0;
  draining = false;
  drain_resp_ch = none;
  draining_ncs_open = false;
  outstanding_drain_count = pos 0;
  hnator = none;
  partition_replicas = none;
  partition_masters = [];
  procedure_infos = none;
  effects = [];
}
