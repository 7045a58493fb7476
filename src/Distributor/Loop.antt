-- ===== src/Distributor/Loop.antt =====
-- One iteration of the distributor's `loop` (voltdbclient/distributor.go).
use voltdb_client_go.Common.{
  ℕ, ◌==◌, ◌%◌, if◌then◌else◌, Bool, true, false, not, ◌&&◌, ℤ, pos, ◌-ℤ◌, eqb_ℤ, Option, none,
  some, List, [], ◌∷◌, length, get_elem?,
}
use voltdb_client_go.Invocation.{ProcedureInvocation}
use voltdb_client_go.Distributor.Affinity.{
  Hashinator, Procedure, World, Choice, Topology, get_conn_by_ca, no_choice,
}
use voltdb_client_go.Distributor.State.{
  Effect, submitted, to_all, asked_topo, asked_stats, asked_catalog, close_node, drain_node, closed,
  drained, Loop, Next, running, stopped, crashed, continue, emit,
}

unfoldable pub is_nil : {A : Type 0} → Option A → Bool
is_nil none = true
is_nil (some a) = false

-- The top of an iteration, `in_len` being len(c.inPiCh).
unfoldable pub check_drain : ℕ → Loop → Loop
unfolding emit
check_drain in_len l =
    if l.draining && in_len == 0 && eqb_ℤ l.outstanding_drain_count (pos 0)
    then emit (drained l.drain_resp_ch) (record l { draining_ncs_open = false; draining = false })
    else l

-- connected[rand.Intn(len(connected))], where there is one.
unfoldable pub some_node : ℕ → Loop → Option ℕ
some_node rand l = get_elem? l.connected (rand % length l.connected)

unfoldable pub subscribe_topo : Option ℕ → Loop → Loop
unfolding emit
subscribe_topo none l = l
subscribe_topo (some nc) l =
    if l.use_client_affinity && is_nil l.subscribed_connection
    then emit (asked_topo nc) (record l { sub_topo_open = true; subscribed_connection = some nc })
    else l

unfoldable pub get_topo_statistics : Option ℕ → Loop → Loop
unfolding emit
get_topo_statistics none l = l
get_topo_statistics (some nc) l =
    if l.use_client_affinity && not l.has_topo_stats
    then emit (asked_stats nc) (record l { topo_stats_open = true; has_topo_stats = true })
    else l

unfoldable pub get_procedure_info : Option ℕ → Loop → Loop
unfolding emit
get_procedure_info none l = l
get_procedure_info (some nc) l =
    if l.use_client_affinity && not l.fetched_catalog
    then emit (asked_catalog nc) (record l { pr_info_open = true; fetched_catalog = true })
    else l

-- The three draws of rand.Intn.
pub record Draws : Type 0 where
  pub topo : ℕ
  pub stats : ℕ
  pub catalog : ℕ

unfoldable pub affinity : Draws → Loop → Loop
unfolding some_node subscribe_topo get_topo_statistics get_procedure_info
affinity d l =
    let subscribed = subscribe_topo (some_node d.topo l) l in
    let counted = get_topo_statistics (some_node d.stats subscribed) subscribed in
    get_procedure_info (some_node d.catalog counted) counted

-- What updateAffinityTopology makes of an answer.
pub data TopoStats : Type 0 where
  known : Hashinator → List (ℤ × List ℕ) → TopoStats
  legacy : TopoStats  -- errLegacyHashinator
  other : TopoStats  -- another error, or an answer that is no VoltRows
  broken : TopoStats  -- it panics

-- What updateProcedurePartitioning makes of an answer.
pub data PrInfo : Type 0 where
  catalog : List (List ℕ × Procedure) → PrInfo
  unread : PrInfo  -- an error, or an answer that is no VoltRows
  broken : PrInfo  -- it panics

pub data Event : Type 0 where
  close : ℕ → Event
  closing_nc : Event  -- a node has closed
  topo_resp : Bool → Event  -- whether it is a VoltError
  topo_stats_resp : TopoStats → Event
  pr_info_resp : PrInfo → Event
  invoke : World → ProcedureInvocation → Event
  drain : ℕ → Event
  draining_nc : Event  -- a node has drained

unfoldable pub each_node : (ℕ → Effect) → List ℕ → Loop → Loop
unfolding emit
each_node f [] l = l
each_node f (nc ∷ ncs) l = each_node f ncs (emit (f nc) l)

unfoldable pub handle_close : ℕ → Loop → Loop
unfolding each_node emit
handle_close ch l =
    let shut = record l { in_open = false; close_resp_ch = some ch } in
    if length l.connected == 0
    then emit (closed (some ch)) shut
    else each_node close_node l.connected (record shut {
      outstanding_close_count = pos (length l.connected);
      closing_ncs_open = true;
    })

unfoldable pub handle_closing_nc : Loop → Next
unfolding emit
handle_closing_nc l =
    let fewer = record l { outstanding_close_count = l.outstanding_close_count -ℤ pos 1 } in
    if eqb_ℤ fewer.outstanding_close_count (pos 0)
    then stopped (emit (closed l.close_resp_ch) fewer)
    else running fewer

unfoldable pub handle_topo_stats : TopoStats → Loop → Next
handle_topo_stats (TopoStats.known h replicas) l =
    running
      (record l { hnator = some h; partition_replicas = some replicas; topo_stats_open = false })
handle_topo_stats TopoStats.legacy l = running l
handle_topo_stats TopoStats.other l = running (record l { has_topo_stats = false })
handle_topo_stats TopoStats.broken l = crashed

unfoldable pub handle_pr_info : PrInfo → Loop → Next
handle_pr_info (PrInfo.catalog infos) l =
    running (record l { procedure_infos = some infos; pr_info_open = false })
handle_pr_info PrInfo.unread l = running (record l { fetched_catalog = false })
handle_pr_info PrInfo.broken l = crashed

-- What getConnByCA is called with, if it is called.
unfoldable pub topology : Loop → Option Topology
topology l = elim l.hnator [
  | none ↦ none
  | some h ↦ elim l.partition_replicas [
    | none ↦ none
    | some replicas ↦ elim l.procedure_infos [
      | none ↦ none
      | some infos ↦
          if l.use_client_affinity
          then some (record {
            hnator = h;
            partition_masters = l.partition_masters;
            partition_replicas = replicas;
            procedure_infos = infos;
            reads_to_replicas = l.reads_to_replicas;
          })
          else none
    ]
  ]
]

unfoldable pub choose_conn : World → Option Topology → ProcedureInvocation → Option Choice
unfolding get_conn_by_ca no_choice
choose_conn w none pi = some (no_choice none)
choose_conn w (some t) pi = get_conn_by_ca w t pi

-- `err != nil && !backpressure && nc != nil`
unfoldable pub hand_over : ProcedureInvocation → Choice → Loop → Loop
unfolding is_nil emit
hand_over pi c l = elim c.cxn [
  | none ↦ emit (to_all pi) l
  | some nc ↦
      if not (is_nil c.err) && not c.backpressure
      then emit (submitted nc pi) l
      else emit (to_all pi) l
]

unfoldable pub submit_chosen : ProcedureInvocation → Option Choice → Loop → Next
unfolding hand_over
submit_chosen pi none l = crashed
submit_chosen pi (some c) l = running (hand_over pi c l)

unfoldable pub handle_invoke : World → ProcedureInvocation → Loop → Next
unfolding topology choose_conn submit_chosen
handle_invoke w pi l = submit_chosen pi (choose_conn w (topology l) pi) l

-- The channel of the caller is stored whether or not a drain is on.
unfoldable pub handle_drain : ℕ → Loop → Loop
unfolding each_node emit
handle_drain ch l =
    let heard = record l { drain_resp_ch = some ch } in
    if l.draining
    then heard
    else if length l.connected == 0
    then emit (drained (some ch)) heard
    else each_node drain_node l.connected (record heard {
      draining = true;
      outstanding_drain_count = pos (length l.connected);
      draining_ncs_open = true;
    })

-- Nothing comes from a channel that is nil.
unfoldable pub handle_event : Event → Loop → Next
unfolding handle_close handle_closing_nc handle_topo_stats handle_pr_info handle_invoke handle_drain
handle_event (Event.close ch) l = if l.in_open then running (handle_close ch l) else running l
handle_event Event.closing_nc l = if l.closing_ncs_open then handle_closing_nc l else running l
handle_event (Event.topo_resp is_error) l =
    if not l.sub_topo_open
    then running l
    else if is_error
    then running (record l { subscribed_connection = none })
    else running (record l { sub_topo_open = false })
handle_event (Event.topo_stats_resp r) l =
    if l.topo_stats_open then handle_topo_stats r l else running l
handle_event (Event.pr_info_resp r) l = if l.pr_info_open then handle_pr_info r l else running l
handle_event (Event.invoke w pi) l = if l.in_open then handle_invoke w pi l else running l
handle_event (Event.drain ch) l = if l.in_open then running (handle_drain ch l) else running l
handle_event Event.draining_nc l =
    if l.draining_ncs_open
    then running (record l { outstanding_drain_count = l.outstanding_drain_count -ℤ pos 1 })
    else running l

-- One iteration: the length of inPiCh and the draws at its top, and the event that comes.
pub record Round : Type 0 where
  pub in_len : ℕ
  pub draws : Draws
  pub event : Event

unfoldable pub iterate : Round → Loop → Next
unfolding check_drain affinity handle_event
iterate r l = handle_event r.event (affinity r.draws (check_drain r.in_len l))

unfoldable pub run : List Round → Loop → Next
unfolding continue iterate
run [] l = running l
run (r ∷ rs) l = continue (iterate r l) (run rs)
