-- ===== src/Distributor/Tests.antt =====
-- The theorems about the distributor at concrete states (voltdbclient/distributor.go).
use voltdb_client_go.Common.{
  ◌^◌, ◌≡◌, ◌⊎◌, refl, true, false, pos, negsuc, none, some, List, [], ◌∷◌, ◌++◌, arith,
}
use voltdb_client_go.Wire.Value.{Scalar, Value}
use voltdb_client_go.Invocation.{ProcedureInvocation}
use voltdb_client_go.Distributor.Affinity.{World, hashinator_elastic}
use voltdb_client_go.Distributor.State.{Loop, running, crashed, continue, emit, to_all}
use voltdb_client_go.Distributor.Loop.{Event, Round, handle_event, topology, choose_conn, run}
use voltdb_client_go.Distributor.Routing.{invoke-to_all}
use voltdb_client_go.Distributor.Drain.{After, answered, drain_lost}
use voltdb_client_go.Distributor.State.{Effect, drained}
use voltdb_client_go.Distributor.Loop.{check_drain}
use voltdb_client_go.Distributor.Desk.{desk_of, visible, serve}
use voltdb_client_go.Distributor.Service.{Refines, run-Refines}
use voltdb_client_go.Distributor.Answering.{WhileRunning, drain-answered}
use voltdb_client_go.Distributor.Early.{drain_early}
use voltdb_client_go.Distributor.Ending.{Stops, ClosedAfter, close_ends}

abbrev vote : ProcedureInvocation
vote = record {
  handle = pos 7;
  is_query = false;
  query = b'V' ∷ [];
  params = Value.scalar (Scalar.int8 (pos 4)) ∷ [];
  response_ch = some 1;
  timeout = pos 1000;
  arc = none;
  async = false;
  slen = negsuc 0;
}

-- The topology is known; every partition is led by node 4, which has no back pressure.
abbrev informed : Loop
informed = record {
  connected = 4 ∷ 5 ∷ [];
  use_client_affinity = true;
  reads_to_replicas = false;
  in_open = true;
  subscribed_connection = some 4;
  sub_topo_open = false;
  topo_stats_open = false;
  has_topo_stats = true;
  pr_info_open = false;
  fetched_catalog = true;
  close_resp_ch = none;
  closing_ncs_open = false;
  outstanding_close_count = pos 0;
  draining = true;
  drain_resp_ch = some 1;
  draining_ncs_open = true;
  outstanding_drain_count = pos 2;
  hnator =
      some (hashinator_elastic (λ b. 2 ^ 40) (record { token = pos 0; partition = pos 3 } ∷ []));
  partition_replicas = some [];
  partition_masters = (pos 3, 4) ∷ [];
  procedure_infos = some (
      (
        b'V' ∷ [],
        record {
          single_partition = true;
          read_only = false;
          partition_parameter = pos 0;
          partition_parameter_type = pos 3;
        },
      )
      ∷ []);
  effects = [];
}

abbrev calm : World
calm = record { rand = 0; has_bp = λ k nc. false }

invoke-to_all_example :
    (handle_event (Event.invoke calm vote) informed ≡ running (emit (to_all vote) informed))
    ⊎ ((handle_event (Event.invoke calm vote) informed ≡ crashed)
        × (choose_conn calm (topology informed) vote ≡ none))
invoke-to_all_example = invoke-to_all calm vote informed refl

abbrev drained_round : Round
drained_round = record {
  in_len = 0;
  draws = record { topo = 0; stats = 0; catalog = 0 };
  event = Event.draining_nc;
}

-- Both nodes answer, and the loop goes on.
abbrev finish : List Round
finish = drained_round ∷ drained_round ∷ drained_round ∷ []

drain_lost_example :
    After
      (λ m. answered 1 m.effects ≡ false)
      (continue (handle_event (Event.drain 2) informed) (run finish))
unfolding answered
drain_lost_example = drain_lost 1 2 finish informed refl refl refl (tt, (tt, (tt, tt)))

-- No drain is on.
abbrev idle : Loop
idle = record informed {
  draining = false;
  drain_resp_ch = none;
  draining_ncs_open = false;
  outstanding_drain_count = pos 0;
}

-- An iteration with an invocation queued.
abbrev busy_round : Event → Round
busy_round x = record { in_len = 1; draws = record { topo = 0; stats = 0; catalog = 0 }; event = x }

abbrev voted : List Round
voted = busy_round (Event.invoke calm vote) ∷ drained_round ∷ []

run-Refines_example : Refines (run voted informed) (serve voted (desk_of informed))
run-Refines_example = run-Refines voted informed

abbrev both_drained : List Round
both_drained =
    busy_round Event.draining_nc
    ∷ busy_round (Event.invoke calm vote)
    ∷ busy_round Event.draining_nc
    ∷ []

drain-answered_example :
    WhileRunning
      (λ m. answered 2 m.effects ≡ true)
      (continue (handle_event (Event.drain 2) idle) (run (both_drained ++ drained_round ∷ [])))
drain-answered_example =
    drain-answered 2 both_drained drained_round idle refl refl (tt, (tt, (tt, tt))) refl refl

abbrev quickly_drained : List Round
quickly_drained = busy_round Event.draining_nc ∷ busy_round Event.draining_nc ∷ []

drain_early_example :
    WhileRunning
      (λ m.
        (xs : List Effect) × (visible (check_drain 0 m).effects
          ≡ drained (some 2) ∷ to_all vote ∷ xs))
      (continue
        (handle_event (Event.drain 2) idle)
        (run (quickly_drained ++ busy_round (Event.invoke calm vote) ∷ [])))
drain_early_example =
    drain_early 2 calm vote quickly_drained (busy_round (Event.invoke calm vote)) idle refl refl
      refl (tt, (tt, tt)) (refl, (refl, tt)) refl refl refl

-- The nodes close; the invocation stays where it is.
abbrev closing : List Round
closing =
    busy_round Event.closing_nc
    ∷ busy_round (Event.invoke calm vote)
    ∷ busy_round Event.closing_nc
    ∷ []

close_ends_example :
    Stops (ClosedAfter 3 idle) (continue (handle_event (Event.close 3) idle) (run closing))
close_ends_example = close_ends 3 closing idle refl refl (omega arith) (tt, (tt, (tt, tt)))
