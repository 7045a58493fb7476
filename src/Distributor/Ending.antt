-- ===== src/Distributor/Ending.antt =====
-- What follows when the distributor's `loop` takes a call of Close (voltdbclient/distributor.go).
use voltdb_client_go.Common.{
  ℕ, ◌≤◌, ◌==◌, ◌≡◌, refl, sym, ◌∙◌, ap, subst, arith, Bool, true, false, some, List, [], ◌∷◌, All,
  length, pos, not, ◌-ℤ◌, eqb_ℤ, if◌then◌else◌,
}
use voltdb_client_go.Distributor.State.{
  Effect, submitted, to_all, asked_topo, asked_stats, asked_catalog, close_node, drain_node, closed,
  drained, Loop, Next, running, stopped, crashed, continue, emit,
}
use voltdb_client_go.Distributor.Loop.{
  Draws, TopoStats, PrInfo, Event, Round, check_drain, affinity, handle_topo_stats, handle_pr_info,
  handle_closing_nc, handle_close, handle_event, iterate, run,
}
use voltdb_client_go.Distributor.Desk.{
  Desk, desk_of, visible, Service, going, over, tell, before_event, take_close, serve,
}
use voltdb_client_go.Distributor.Service.{
  Refines, check_drain-desk, affinity-desk, handle_close-desk, run-Refines,
}
use voltdb_client_go.Distributor.Drain.{if_true}
use voltdb_client_go.Distributor.Closing.{
  handed, close_answers, IsClosing, ClosedBy, Over, serve-Over,
}

-- The loop goes on without calls, or has returned: it has not panicked.
abbrev IsShut : Next → Type 0
IsShut (running l) = l.in_open ≡ false
IsShut (stopped l) = Unit {0}
IsShut crashed = ⊥

IsShut-else : (b : Bool) (m n : Next) → b ≡ false → IsShut n → IsShut (if b then m else n)
IsShut-else b m n e h = rw e h

IsShut-either : (b : Bool) (m n : Next) → IsShut m → IsShut n → IsShut (if b then m else n)
IsShut-either true m n h k = h
IsShut-either false m n h k = k

-- An answer about the topology or the procedures that does not make its reader panic, or another
-- event.
abbrev pub IsReadable : Event → Type 0
IsReadable (Event.topo_stats_resp TopoStats.broken) = ⊥
IsReadable (Event.pr_info_resp PrInfo.broken) = ⊥
IsReadable _ = Unit {0}

handle_topo_stats-IsShut :
    (r : TopoStats) (l : Loop)
    → IsReadable (Event.topo_stats_resp r)
    → l.in_open ≡ false
    → IsShut (handle_topo_stats r l)
unfolding handle_topo_stats
handle_topo_stats-IsShut (TopoStats.known h r) l i e = e
handle_topo_stats-IsShut TopoStats.legacy l i e = e
handle_topo_stats-IsShut TopoStats.other l i e = e
handle_topo_stats-IsShut TopoStats.broken l i e = i

handle_pr_info-IsShut :
    (r : PrInfo) (l : Loop)
    → IsReadable (Event.pr_info_resp r)
    → l.in_open ≡ false
    → IsShut (handle_pr_info r l)
unfolding handle_pr_info
handle_pr_info-IsShut (PrInfo.catalog infos) l i e = e
handle_pr_info-IsShut PrInfo.unread l i e = e
handle_pr_info-IsShut PrInfo.broken l i e = i

handle_event-IsShut :
    (x : Event) (l : Loop) → IsReadable x → l.in_open ≡ false → IsShut (handle_event x l)
unfolding handle_event handle_closing_nc emit
handle_event-IsShut (Event.close ch) l i e = IsShut-else l.in_open _ _ e e
handle_event-IsShut Event.closing_nc l i e =
    IsShut-either l.closing_ncs_open _ _
      (IsShut-either (eqb_ℤ (l.outstanding_close_count -ℤ pos 1) (pos 0)) _ _ tt e) e
handle_event-IsShut (Event.topo_resp b) l i e =
    IsShut-either (not l.sub_topo_open) _ _ e (IsShut-either b _ _ e e)
handle_event-IsShut (Event.topo_stats_resp r) l i e =
    IsShut-either l.topo_stats_open _ _ (handle_topo_stats-IsShut r l i e) e
handle_event-IsShut (Event.pr_info_resp o) l i e =
    IsShut-either l.pr_info_open _ _ (handle_pr_info-IsShut o l i e) e
handle_event-IsShut (Event.invoke w pi) l i e = IsShut-else l.in_open _ _ e e
handle_event-IsShut (Event.drain ch) l i e = IsShut-else l.in_open _ _ e e
handle_event-IsShut Event.draining_nc l i e = IsShut-either l.draining_ncs_open _ _ e e

before_event-open : (n : ℕ) (d : Desk) → (before_event n d).open_for_calls ≡ d.open_for_calls
unfolding before_event tell
before_event-open n d = ground arith

top-IsShut : (d : Draws) (n : ℕ) (l : Loop) → (affinity d (check_drain n l)).in_open ≡ l.in_open
unfolding desk_of before_event tell
top-IsShut d n l =
    ap (λ (e : Desk). e.open_for_calls) (affinity-desk d (check_drain n l) ∙ check_drain-desk n l)
    ∙ before_event-open n (desk_of l)

continue-IsShut :
    (n : Next) (k : Loop → Next)
    → IsShut n
    → ((l : Loop) → l.in_open ≡ false → IsShut (k l))
    → IsShut (continue n k)
unfolding continue
continue-IsShut (running l) k e h = h l e
continue-IsShut (stopped l) k e h = tt
continue-IsShut crashed k e h = e

run-IsShut :
    (rs : List Round) (l : Loop)
    → All (λ r. IsReadable r.event) rs
    → l.in_open ≡ false
    → IsShut (run rs l)
unfolding run iterate
run-IsShut [] l is e = e
run-IsShut (r ∷ rs) l (i, is) e =
    let top = affinity r.draws (check_drain r.in_len l) in
    continue-IsShut (handle_event r.event top) (run rs)
      (handle_event-IsShut r.event top i (top-IsShut r.draws r.in_len l ∙ e))
      (λ m. run-IsShut rs m is)

-- The loop has returned.
abbrev pub Stops : (Loop → Type 0) → Next → Type 0
Stops P (stopped l) = P l
Stops P _ = ⊥

Stops-desk :
    (P : Desk → Type 0) (n : Next) (s : Service)
    → IsShut n
    → Refines n s
    → Over P s
    → Stops (λ m. P (desk_of m)) n
Stops-desk P (running l) (going d) i r o = o
Stops-desk P (running l) (over d) i r o = r
Stops-desk P (stopped l) (going d) i r o = absurd o
Stops-desk P (stopped l) (over d) i r o = subst P (sym r) o
Stops-desk P crashed s i r o = i

Stops-map : {P Q : Loop → Type 0} (n : Next) → ((l : Loop) → P l → Q l) → Stops P n → Stops Q n
Stops-map (running l) h p = p
Stops-map (stopped l) h p = h l p
Stops-map crashed h p = p

handed-visible : (xs : List Effect) → handed (visible xs) ≡ handed xs
unfolding handed visible
handed-visible [] = refl
handed-visible (submitted nc pi ∷ xs) = ap (◌∷◌ pi) (handed-visible xs)
handed-visible (to_all pi ∷ xs) = ap (◌∷◌ pi) (handed-visible xs)
handed-visible (asked_topo nc ∷ xs) = handed-visible xs
handed-visible (asked_stats nc ∷ xs) = handed-visible xs
handed-visible (asked_catalog nc ∷ xs) = handed-visible xs
handed-visible (close_node nc ∷ xs) = handed-visible xs
handed-visible (drain_node nc ∷ xs) = handed-visible xs
handed-visible (closed c ∷ xs) = handed-visible xs
handed-visible (drained c ∷ xs) = handed-visible xs

take_close-IsClosing :
    (ch : ℕ) (d : Desk)
    → d.nodes == 0 ≡ false
    → IsClosing ch d.nodes (handed d.sent) (take_close ch d)
unfolding take_close
take_close-IsClosing ch d e = ground arith

-- What the end of the loop leaves: the last thing that a caller can tell is the answer to Close, and
-- no invocation has been passed on since it was taken.
abbrev pub ClosedAfter : ℕ → Loop → Loop → Type 0
ClosedAfter ch l m =
    ((xs : List Effect) × (visible m.effects ≡ closed (some ch) ∷ xs))
    × (handed m.effects ≡ handed l.effects)

close-served :
    (ch : ℕ) (rs : List Round) (l : Loop)
    → length l.connected == 0 ≡ false
    → length l.connected ≤ close_answers rs
    → Over
        (λ d. ClosedBy ch (handed (visible l.effects)) d.sent)
        (serve rs (take_close ch (desk_of l)))
unfolding desk_of
close-served ch rs l e m =
    serve-Over ch (length l.connected) (handed (visible l.effects)) rs (take_close ch (desk_of l))
      (ground arith) m (take_close-IsClosing ch (desk_of l) e)

-- A loop with a node that takes a call of Close comes to an end. As soon as as many nodes have said
-- that they have closed as are connected, it has answered the call and returned, without a panic.
-- Anything else may come in the meantime but an answer about the topology or the procedures that
-- makes its reader panic. No invocation is passed on: those that were queued stay so.
pub close_ends :
    (ch : ℕ) (rs : List Round) (l : Loop)
    → l.in_open ≡ true
    → length l.connected == 0 ≡ false
    → length l.connected ≤ close_answers rs
    → All (λ r. IsReadable r.event) rs
    → Stops (ClosedAfter ch l) (continue (handle_event (Event.close ch) l) (run rs))
unfolding handle_event continue desk_of
close_ends ch rs l o e m is =
    let taken : handle_event (Event.close ch) l ≡ running (handle_close ch l) =
      if_true l.in_open (running (handle_close ch l)) (running l) o in
    let r : Refines (run rs (handle_close ch l)) (serve rs (take_close ch (desk_of l))) =
      subst (λ d. Refines (run rs (handle_close ch l)) (serve rs d)) (handle_close-desk ch l)
        (run-Refines rs (handle_close ch l)) in
    subst (λ n. Stops (ClosedAfter ch l) (continue n (run rs))) (sym taken)
      (Stops-map (run rs (handle_close ch l))
        (λ k h. ((h.0, h.1), sym (handed-visible k.effects) ∙ (h.2 ∙ handed-visible l.effects)))
        (Stops-desk (λ d. ClosedBy ch (handed (visible l.effects)) d.sent)
          (run rs (handle_close ch l)) (serve rs (take_close ch (desk_of l)))
          (run-IsShut rs (handle_close ch l) is (
            ap (λ (d : Desk). d.open_for_calls) (handle_close-desk ch l)
            ∙ (take_close-IsClosing ch (desk_of l) e).shut))
          r (close-served ch rs l e m)))
