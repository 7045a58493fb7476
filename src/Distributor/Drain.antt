-- ===== src/Distributor/Drain.antt =====
-- Calls of Drain that overlap (the case of drainCh, voltdbclient/distributor.go).
use voltdb_client_go.Common.{
  ℕ, ◌==◌, ◌≡◌, sym, subst, inl, inr, arith, Bool, true, false, not, ◌||◌, Option, none, some, List,
  [], ◌∷◌, Option-cases, if◌then◌else◌, pos, length, ◌-ℤ◌, eqb_ℤ, ◌&&◌,
}
use voltdb_client_go.Invocation.{ProcedureInvocation}
use voltdb_client_go.Distributor.Affinity.{Choice}
use voltdb_client_go.Distributor.State.{
  Effect, submitted, to_all, close_node, drain_node, closed, drained, Loop, Next, running, stopped,
  crashed, continue, emit,
}
use voltdb_client_go.Distributor.Loop.{
  is_nil, check_drain, some_node, subscribe_topo, get_topo_statistics, get_procedure_info, Draws,
  affinity, TopoStats, PrInfo, Event, each_node, handle_close, handle_closing_nc, handle_topo_stats,
  handle_pr_info, topology, choose_conn, hand_over, submit_chosen, handle_invoke, handle_drain,
  handle_event, Round, iterate, run,
}

abbrev pub is_channel : ℕ → Option ℕ → Bool
is_channel a none = false
is_channel a (some b) = b == a

-- Whether a call of Drain that waits on channel `a` has been answered.
unfoldable pub answered : ℕ → List Effect → Bool
answered a [] = false
answered a (drained ch ∷ xs) = is_channel a ch || answered a xs
answered a (_ ∷ xs) = answered a xs

-- It has not been, and the loop has forgotten the channel.
pub record IsLost (a : ℕ) (l : Loop) : Type 0 where
  pub unanswered : answered a l.effects ≡ false
  pub forgotten : is_channel a l.drain_resp_ch ≡ false

abbrev pub After : (Loop → Type 0) → Next → Type 0
After P (running l) = P l
After P (stopped l) = P l
After P crashed = Unit {0}

-- The event is not a call of Drain on channel `a`.
abbrev pub IsElse : ℕ → Event → Type 0
IsElse a (Event.drain ch) = ch == a ≡ false
IsElse a _ = Unit {0}

either : (P : Loop → Type 0) (b : Bool) (m n : Loop) → P m → P n → P (if b then m else n)
either P true m n p q = p
either P false m n p q = q

After-either :
    (P : Loop → Type 0) (b : Bool) (m n : Next)
    → After P m
    → After P n
    → After P (if b then m else n)
After-either P true m n p q = p
After-either P false m n p q = q

check_drain-IsLost : (a n : ℕ) (l : Loop) → IsLost a l → IsLost a (check_drain n l)
unfolding check_drain emit answered
check_drain-IsLost a n l v = ground arith

subscribe_topo-IsLost :
    (a : ℕ) (nc : Option ℕ) (l : Loop) → IsLost a l → IsLost a (subscribe_topo nc l)
unfolding subscribe_topo emit answered
subscribe_topo-IsLost a none l v = v
subscribe_topo-IsLost a (some nc) l v = ground arith

get_topo_statistics-IsLost :
    (a : ℕ) (nc : Option ℕ) (l : Loop) → IsLost a l → IsLost a (get_topo_statistics nc l)
unfolding get_topo_statistics emit answered
get_topo_statistics-IsLost a none l v = v
get_topo_statistics-IsLost a (some nc) l v = ground arith

get_procedure_info-IsLost :
    (a : ℕ) (nc : Option ℕ) (l : Loop) → IsLost a l → IsLost a (get_procedure_info nc l)
unfolding get_procedure_info emit answered
get_procedure_info-IsLost a none l v = v
get_procedure_info-IsLost a (some nc) l v = ground arith

affinity-IsLost : (a : ℕ) (d : Draws) (l : Loop) → IsLost a l → IsLost a (affinity d l)
unfolding affinity
affinity-IsLost a d l v =
    let subscribed = subscribe_topo (some_node d.topo l) l in
    let counted = get_topo_statistics (some_node d.stats subscribed) subscribed in
    get_procedure_info-IsLost a (some_node d.catalog counted) counted (
      get_topo_statistics-IsLost a (some_node d.stats subscribed) subscribed
        (subscribe_topo-IsLost a (some_node d.topo l) l v))

close_nodes-IsLost :
    (a : ℕ) (ncs : List ℕ) (l : Loop) → IsLost a l → IsLost a (each_node close_node ncs l)
unfolding each_node emit answered
close_nodes-IsLost a [] l v = v
close_nodes-IsLost a (nc ∷ ncs) l v =
    close_nodes-IsLost a ncs _ (record { unanswered = v.unanswered; forgotten = v.forgotten })

drain_nodes-IsLost :
    (a : ℕ) (ncs : List ℕ) (l : Loop) → IsLost a l → IsLost a (each_node drain_node ncs l)
unfolding each_node emit answered
drain_nodes-IsLost a [] l v = v
drain_nodes-IsLost a (nc ∷ ncs) l v =
    drain_nodes-IsLost a ncs _ (record { unanswered = v.unanswered; forgotten = v.forgotten })

handle_close-IsLost : (a ch : ℕ) (l : Loop) → IsLost a l → IsLost a (handle_close ch l)
unfolding handle_close emit answered
handle_close-IsLost a ch l v =
    let shut : Loop = record l { in_open = false; close_resp_ch = some ch } in
    let closing : Loop = record shut {
      outstanding_close_count = pos (length l.connected);
      closing_ncs_open = true;
    } in
    either (IsLost a) (length l.connected == 0) (emit (closed (some ch)) shut)
      (each_node close_node l.connected closing)
      (record { unanswered = v.unanswered; forgotten = v.forgotten })
      (close_nodes-IsLost a l.connected closing
        (record { unanswered = v.unanswered; forgotten = v.forgotten }))

handle_closing_nc-IsLost : (a : ℕ) (l : Loop) → IsLost a l → After (IsLost a) (handle_closing_nc l)
unfolding handle_closing_nc emit answered
handle_closing_nc-IsLost a l v =
    let fewer : Loop = record l { outstanding_close_count = l.outstanding_close_count -ℤ pos 1 } in
    After-either (IsLost a) (eqb_ℤ fewer.outstanding_close_count (pos 0))
      (stopped (emit (closed l.close_resp_ch) fewer)) (running fewer)
      (record { unanswered = v.unanswered; forgotten = v.forgotten })
      (record { unanswered = v.unanswered; forgotten = v.forgotten })

handle_drain-IsLost :
    (a ch : ℕ) (l : Loop)
    → ch == a ≡ false
    → answered a l.effects ≡ false
    → IsLost a (handle_drain ch l)
unfolding handle_drain emit answered
handle_drain-IsLost a ch l e v =
    let heard : Loop = record l { drain_resp_ch = some ch } in
    let draining : Loop = record heard {
      draining = true;
      outstanding_drain_count = pos (length l.connected);
      draining_ncs_open = true;
    } in
    let w : IsLost a heard = record { unanswered = v; forgotten = e } in
    either (IsLost a) l.draining heard
      (if length l.connected == 0
        then emit (drained (some ch)) heard
        else each_node drain_node l.connected draining)
      w
      (either (IsLost a) (length l.connected == 0) (emit (drained (some ch)) heard)
        (each_node drain_node l.connected draining) (record { unanswered = rw e v; forgotten = e })
        (drain_nodes-IsLost a l.connected draining (record { unanswered = v; forgotten = e })))

hand_over-IsLost :
    (a : ℕ) (pi : ProcedureInvocation) (c : Choice) (l : Loop)
    → IsLost a l
    → IsLost a (hand_over pi c l)
unfolding hand_over emit answered
hand_over-IsLost a pi c l v = elim (Option-cases c.cxn) [
  | inl e ↦ rw e (record { unanswered = v.unanswered; forgotten = v.forgotten })
  | inr (nc, e) ↦ rw e (
      either (IsLost a) (not (is_nil c.err) && not c.backpressure) (emit (submitted nc pi) l)
        (emit (to_all pi) l) (record { unanswered = v.unanswered; forgotten = v.forgotten })
        (record { unanswered = v.unanswered; forgotten = v.forgotten }))
]

submit_chosen-IsLost :
    (a : ℕ) (pi : ProcedureInvocation) (c : Option Choice) (l : Loop)
    → IsLost a l
    → After (IsLost a) (submit_chosen pi c l)
unfolding submit_chosen
submit_chosen-IsLost a pi none l v = tt
submit_chosen-IsLost a pi (some c) l v = hand_over-IsLost a pi c l v

handle_event-IsLost :
    (a : ℕ) (x : Event) (l : Loop) → IsElse a x → IsLost a l → After (IsLost a) (handle_event x l)
unfolding handle_event handle_topo_stats handle_pr_info handle_invoke
handle_event-IsLost a (Event.close ch) l e v =
    After-either (IsLost a) l.in_open (running (handle_close ch l)) (running l)
      (handle_close-IsLost a ch l v) v
handle_event-IsLost a Event.closing_nc l e v =
    After-either (IsLost a) l.closing_ncs_open (handle_closing_nc l) (running l)
      (handle_closing_nc-IsLost a l v) v
handle_event-IsLost a (Event.topo_resp b) l e v = ground arith
handle_event-IsLost a (Event.topo_stats_resp (TopoStats.known h r)) l e v = ground arith
handle_event-IsLost a (Event.topo_stats_resp TopoStats.legacy) l e v = ground arith
handle_event-IsLost a (Event.topo_stats_resp TopoStats.other) l e v = ground arith
handle_event-IsLost a (Event.topo_stats_resp TopoStats.broken) l e v = ground arith
handle_event-IsLost a (Event.pr_info_resp (PrInfo.catalog infos)) l e v = ground arith
handle_event-IsLost a (Event.pr_info_resp PrInfo.unread) l e v = ground arith
handle_event-IsLost a (Event.pr_info_resp PrInfo.broken) l e v = ground arith
handle_event-IsLost a (Event.invoke w pi) l e v =
    After-either (IsLost a) l.in_open (handle_invoke w pi l) (running l)
      (submit_chosen-IsLost a pi (choose_conn w (topology l) pi) l v) v
handle_event-IsLost a (Event.drain ch) l e v =
    After-either (IsLost a) l.in_open (running (handle_drain ch l)) (running l)
      (handle_drain-IsLost a ch l e v.unanswered) v
handle_event-IsLost a Event.draining_nc l e v = ground arith

-- No round of the run is a call of Drain on channel `a`.
abbrev pub AllElse : ℕ → List Round → Type 0
AllElse a [] = Unit {0}
AllElse a (r ∷ rs) = IsElse a r.event × AllElse a rs

continue-IsLost :
    (a : ℕ) (n : Next) (k : Loop → Next)
    → After (IsLost a) n
    → ((m : Loop) → IsLost a m → After (IsLost a) (k m))
    → After (IsLost a) (continue n k)
unfolding continue
continue-IsLost a (running m) k w h = h m w
continue-IsLost a (stopped m) k w h = w
continue-IsLost a crashed k w h = tt

run-IsLost :
    (a : ℕ) (rs : List Round) (l : Loop) → AllElse a rs → IsLost a l → After (IsLost a) (run rs l)
unfolding run iterate
run-IsLost a [] l es v = v
run-IsLost a (r ∷ rs) l (e, es) v =
    let top = affinity r.draws (check_drain r.in_len l) in
    continue-IsLost a (handle_event r.event top) (run rs)
      (handle_event-IsLost a r.event top e
        (affinity-IsLost a r.draws (check_drain r.in_len l) (check_drain-IsLost a r.in_len l v)))
      (λ m w. run-IsLost a rs m es w)

unanswered-After :
    (a : ℕ) (n : Next) → After (IsLost a) n → After (λ m. answered a m.effects ≡ false) n
unanswered-After a (running m) w = w.unanswered
unanswered-After a (stopped m) w = w.unanswered
unanswered-After a crashed w = tt

pub if_true : (b : Bool) (m n : Next) → b ≡ true → (if b then m else n) ≡ m
if_true b m n e = rw e

-- When the loop takes a call of Drain, whoever called Drain before on another channel and has not
-- been answered yet is never answered, whatever happens from then on, as long as no later call of
-- Drain comes on that same channel.
pub drain_lost :
    (a b : ℕ) (rs : List Round) (l : Loop)
    → l.in_open ≡ true
    → answered a l.effects ≡ false
    → b == a ≡ false
    → AllElse a rs
    → After (λ m. answered a m.effects ≡ false) (continue (handle_event (Event.drain b) l) (run rs))
unfolding handle_event
drain_lost a b rs l opened un ne es =
    let taken = if_true l.in_open (running (handle_drain b l)) (running l) opened in
    unanswered-After a (continue (handle_event (Event.drain b) l) (run rs)) (
      continue-IsLost a (handle_event (Event.drain b) l) (run rs)
        (subst (After (IsLost a)) (sym taken) (handle_drain-IsLost a b l ne un))
        (λ m w. run-IsLost a rs m es w))
