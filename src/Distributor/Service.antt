-- ===== src/Distributor/Service.antt =====
-- The distributor's `loop` (voltdbclient/distributor.go) held against the desk.
use voltdb_client_go.Common.{
  ℕ, ◌==◌, ◌≡◌, refl, sym, ap, ◌∙◌, inl, inr, subst, Bool, true, false, not, ◌&&◌, Option, none,
  some, List, [], ◌∷◌, if◌then◌else◌, pos, length, ◌-ℤ◌, eqb_ℤ, Bool-cases,
}
use voltdb_client_go.Distributor.State.{
  Effect, to_all, close_node, drain_node, drained, Loop, Next, running, stopped, crashed, continue,
  emit,
}
use voltdb_client_go.Distributor.Affinity.{World}
use voltdb_client_go.Invocation.{ProcedureInvocation}
use voltdb_client_go.Distributor.Loop.{
  is_nil, check_drain, some_node, subscribe_topo, get_topo_statistics, get_procedure_info, Draws,
  affinity, TopoStats, PrInfo, Event, each_node, handle_close, handle_closing_nc, handle_topo_stats,
  handle_pr_info, handle_invoke, handle_drain, handle_event, Round, iterate, run,
}
use voltdb_client_go.Distributor.Routing.{invoke-to_all}
use voltdb_client_go.Distributor.Desk.{
  Desk, visible, desk_of, Service, going, over, tell, before_event, take_close, node_closed,
  take_drain, attend, and_then, serve,
}

-- The loop is where the desk is, unless the process has panicked.
abbrev pub Refines : Next → Service → Type 0
Refines (running l) (going d) = desk_of l ≡ d
Refines (stopped l) (over d) = desk_of l ≡ d
Refines crashed _ = Unit {0}
Refines (running l) (over d) = ⊥
Refines (stopped l) (going d) = ⊥

-- A view of a conditional, branch by branch.
if_view :
    {A B : Type 0} (f : A → B) (b : Bool) (x y : A) (u v : B)
    → f x ≡ u
    → f y ≡ v
    → f (if b then x else y) ≡ (if b then u else v)
if_view f true x y u v p q = p
if_view f false x y u v p q = q

if_same : {A B : Type 0} (f : A → B) (b : Bool) (x y : A) → f x ≡ f y → f (if b then x else y) ≡ f y
if_same f true x y e = e
if_same f false x y e = refl

Refines-if :
    (b : Bool) (m n : Next) (c d : Service)
    → Refines m c
    → Refines n d
    → Refines (if b then m else n) (if b then c else d)
Refines-if true m n c d p q = p
Refines-if false m n c d p q = q

pub check_drain-desk : (n : ℕ) (l : Loop) → desk_of (check_drain n l) ≡ before_event n (desk_of l)
unfolding check_drain before_event emit tell desk_of
check_drain-desk n l =
    if_view desk_of (l.draining && n == 0 && eqb_ℤ l.outstanding_drain_count (pos 0))
      (emit (drained l.drain_resp_ch) (record l { draining_ncs_open = false; draining = false })) l
      _ _ refl refl

subscribe_topo-desk : (nc : Option ℕ) (l : Loop) → desk_of (subscribe_topo nc l) ≡ desk_of l
unfolding subscribe_topo emit desk_of
subscribe_topo-desk none l = refl
subscribe_topo-desk (some nc) l =
    if_same desk_of (l.use_client_affinity && is_nil l.subscribed_connection) _ l refl

get_topo_statistics-desk :
    (nc : Option ℕ) (l : Loop) → desk_of (get_topo_statistics nc l) ≡ desk_of l
unfolding get_topo_statistics emit desk_of
get_topo_statistics-desk none l = refl
get_topo_statistics-desk (some nc) l =
    if_same desk_of (l.use_client_affinity && not l.has_topo_stats) _ l refl

get_procedure_info-desk : (nc : Option ℕ) (l : Loop) → desk_of (get_procedure_info nc l) ≡ desk_of l
unfolding get_procedure_info emit desk_of
get_procedure_info-desk none l = refl
get_procedure_info-desk (some nc) l =
    if_same desk_of (l.use_client_affinity && not l.fetched_catalog) _ l refl

pub affinity-desk : (d : Draws) (l : Loop) → desk_of (affinity d l) ≡ desk_of l
unfolding affinity
affinity-desk d l =
    let subscribed = subscribe_topo (some_node d.topo l) l in
    let counted = get_topo_statistics (some_node d.stats subscribed) subscribed in
    get_procedure_info-desk (some_node d.catalog counted) counted
    ∙ (get_topo_statistics-desk (some_node d.stats subscribed) subscribed
        ∙ subscribe_topo-desk (some_node d.topo l) l)

close_nodes-desk : (ncs : List ℕ) (l : Loop) → desk_of (each_node close_node ncs l) ≡ desk_of l
unfolding each_node emit desk_of
close_nodes-desk [] l = refl
close_nodes-desk (nc ∷ ncs) l = close_nodes-desk ncs _

drain_nodes-desk : (ncs : List ℕ) (l : Loop) → desk_of (each_node drain_node ncs l) ≡ desk_of l
unfolding each_node emit desk_of
drain_nodes-desk [] l = refl
drain_nodes-desk (nc ∷ ncs) l = drain_nodes-desk ncs _

-- Branches of which the desk sees nothing.
if_going :
    (b : Bool) (m n : Next) (c : Service)
    → Refines m c
    → Refines n c
    → Refines (if b then m else n) c
if_going true m n c p q = p
if_going false m n c p q = q

emit-desk :
    (x : Effect) (l : Loop)
    → visible (x ∷ l.effects) ≡ x ∷ visible l.effects
    → desk_of (emit x l) ≡ tell x (desk_of l)
unfolding emit tell desk_of
emit-desk x l e = ap (λ xs. record (desk_of l) { sent = xs }) e

ignored-desk :
    (w : World) (pi : ProcedureInvocation) (l : Loop)
    → l.in_open ≡ false
    → Refines
        (handle_event (Event.invoke w pi) l)
        (if l.in_open then going (tell (to_all pi) (desk_of l)) else going (desk_of l))
unfolding handle_event
ignored-desk w pi l e =
    subst
      (λ b.
        Refines (if b then handle_invoke w pi l else running l)
          (if b then going (tell (to_all pi) (desk_of l)) else going (desk_of l)))
      (sym e) refl

pub handle_close-desk :
    (ch : ℕ) (l : Loop) → desk_of (handle_close ch l) ≡ take_close ch (desk_of l)
unfolding handle_close take_close emit tell desk_of
handle_close-desk ch l =
    if_view desk_of (length l.connected == 0) _ _ _ _ refl (close_nodes-desk l.connected _)

handle_drain-desk : (ch : ℕ) (l : Loop) → desk_of (handle_drain ch l) ≡ take_drain ch (desk_of l)
unfolding handle_drain take_drain emit tell desk_of
handle_drain-desk ch l =
    if_view desk_of l.draining _ _ _ _ refl
      (if_view desk_of (length l.connected == 0) _ _ _ _ refl (drain_nodes-desk l.connected _))

handle_closing_nc-desk : (l : Loop) → Refines (handle_closing_nc l) (node_closed (desk_of l))
unfolding handle_closing_nc node_closed emit tell desk_of
handle_closing_nc-desk l =
    Refines-if (eqb_ℤ (l.outstanding_close_count -ℤ pos 1) (pos 0)) _ _ _ _ refl refl

pub handle_topo_stats-desk :
    (r : TopoStats) (l : Loop) → Refines (handle_topo_stats r l) (going (desk_of l))
unfolding handle_topo_stats desk_of
handle_topo_stats-desk (TopoStats.known h r) l = refl
handle_topo_stats-desk TopoStats.legacy l = refl
handle_topo_stats-desk TopoStats.other l = refl
handle_topo_stats-desk TopoStats.broken l = tt

pub handle_pr_info-desk : (r : PrInfo) (l : Loop) → Refines (handle_pr_info r l) (going (desk_of l))
unfolding handle_pr_info desk_of
handle_pr_info-desk (PrInfo.catalog infos) l = refl
handle_pr_info-desk PrInfo.unread l = refl
handle_pr_info-desk PrInfo.broken l = tt

Refines-either :
    (b : Bool) (m n : Next) (c : Service)
    → Refines m c
    → Refines n c
    → Refines (if b then m else n) c
Refines-either true m n c p q = p
Refines-either false m n c p q = q

Refines-taken :
    (b : Bool) (n : Next) (c d : Service) → b ≡ true → Refines n c → Refines n (if b then c else d)
Refines-taken b n c d e h = rw e h

invoke-desk :
    (w : World) (pi : ProcedureInvocation) (l : Loop)
    → Refines (handle_event (Event.invoke w pi) l) (attend (Event.invoke w pi) (desk_of l))
unfolding attend tell desk_of
invoke-desk w pi l = elim (Bool-cases l.in_open) [
  | inl e ↦
      Refines-taken l.in_open (handle_event (Event.invoke w pi) l) _ _ e
        (elim (invoke-to_all w pi l e) [
          | inl p ↦
              subst (λ n. Refines n (going (tell (to_all pi) (desk_of l)))) (sym p)
                (emit-desk (to_all pi) l refl)
          | inr (p, _) ↦ subst (λ n. Refines n (going (tell (to_all pi) (desk_of l)))) (sym p) tt
        ])
  | inr e ↦ ignored-desk w pi l e
]

pub handle_event-desk : (x : Event) (l : Loop) → Refines (handle_event x l) (attend x (desk_of l))
unfolding attend tell desk_of handle_event
handle_event-desk (Event.close ch) l = Refines-if l.in_open _ _ _ _ (handle_close-desk ch l) refl
handle_event-desk Event.closing_nc l =
    Refines-if l.closing_ncs_open _ _ _ _ (handle_closing_nc-desk l) refl
handle_event-desk (Event.topo_resp b) l =
    if_going (not l.sub_topo_open) _ _ _ refl (if_going b _ _ _ refl refl)
handle_event-desk (Event.topo_stats_resp r) l =
    Refines-either l.topo_stats_open _ _ _ (handle_topo_stats-desk r l) refl
handle_event-desk (Event.pr_info_resp o) l =
    Refines-either l.pr_info_open _ _ _ (handle_pr_info-desk o l) refl
handle_event-desk (Event.invoke w pi) l = invoke-desk w pi l
handle_event-desk (Event.drain ch) l = Refines-if l.in_open _ _ _ _ (handle_drain-desk ch l) refl
handle_event-desk Event.draining_nc l = Refines-if l.draining_ncs_open _ _ _ _ refl refl

pub and_then-Refines :
    (n : Next) (s : Service) (j : Loop → Next) (k : Desk → Service)
    → Refines n s
    → ((m : Loop) → Refines (j m) (k (desk_of m)))
    → Refines (continue n j) (and_then s k)
unfolding continue and_then
and_then-Refines (running m) (going d) j k r h = subst (λ e. Refines (j m) (k e)) r (h m)
and_then-Refines (running m) (over d) j k r h = absurd r
and_then-Refines (stopped m) (going d) j k r h = absurd r
and_then-Refines (stopped m) (over d) j k r h = r
and_then-Refines crashed s j k r h = tt

-- Whatever happens, the distributor does what the desk does: the desk passes every invocation on to
-- all nodes while it is open for calls, it counts the answers of the nodes to a drain and to a
-- close, and it answers the caller of Drain that it heard last and the caller of Close. Only a panic
-- of the process is an exception.
pub run-Refines : (rs : List Round) (l : Loop) → Refines (run rs l) (serve rs (desk_of l))
unfolding run serve iterate
run-Refines [] l = refl
run-Refines (r ∷ rs) l =
    let top = affinity r.draws (check_drain r.in_len l) in
    let seen = affinity-desk r.draws (check_drain r.in_len l) ∙ check_drain-desk r.in_len l in
    and_then-Refines (handle_event r.event top) (attend r.event (before_event r.in_len (desk_of l)))
      (run rs) (serve rs)
      (subst (λ d. Refines (handle_event r.event top) (attend r.event d)) seen
        (handle_event-desk r.event top))
      (run-Refines rs)
