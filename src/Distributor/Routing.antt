-- ===== src/Distributor/Routing.antt =====
-- Where the distributor sends an invocation (the case of inPiCh, voltdbclient/distributor.go).
use voltdb_client_go.Common.{
  ℕ, ◌≡◌, ◌∙◌, refl, ◌⊎◌, inl, inr, Bool, true, false, not, ◌&&◌, Option, none, some, List,
  Option-cases, if◌then◌else◌, get_elem?, ◌%◌, length, Error,
}
use voltdb_client_go.Invocation.{ProcedureInvocation}
use voltdb_client_go.Distributor.Affinity.{
  Hashed, Procedure, World, Choice, Topology, no_choice, choose, pick_among, pick_replica,
  pick_master, pick, pick_for, hashed_partition, get_conn_by_ca, find_procedure, find_replicas,
  find_master,
}
use voltdb_client_go.Distributor.State.{Loop, Next, running, crashed, emit, to_all}
use voltdb_client_go.Distributor.Loop.{
  is_nil, Event, handle_event, handle_invoke, topology, choose_conn, hand_over, submit_chosen,
}

-- The choice does not meet the condition of the distributor.
IsRefused : Choice → Type 0
IsRefused c = not (is_nil c.err) && not c.backpressure ≡ false

AllRefused : Option Choice → Type 0
AllRefused none = Unit {0}
AllRefused (some c) = IsRefused c

no_choice-IsRefused : (e : Option Error) → IsRefused (no_choice e)
unfolding IsRefused no_choice is_nil
no_choice-IsRefused none = refl
no_choice-IsRefused (some e) = refl

choose-IsRefused : (w : World) (k nc : ℕ) → IsRefused (choose w k nc)
unfolding IsRefused choose is_nil
choose-IsRefused w k nc = refl

pick_among-IsRefused : (w : World) (ncs : List ℕ) (nc : Option ℕ) → IsRefused (pick_among w ncs nc)
unfolding pick_among
pick_among-IsRefused w ncs none = no_choice-IsRefused none
pick_among-IsRefused w ncs (some nc) = choose-IsRefused w _ _

pick_replica-IsRefused : (w : World) (ncs : List ℕ) → IsRefused (pick_replica w ncs)
unfolding pick_replica
pick_replica-IsRefused w ncs = pick_among-IsRefused w ncs (get_elem? ncs (w.rand % length ncs))

pick_master-IsRefused : (w : World) (nc : Option ℕ) → IsRefused (pick_master w nc)
unfolding pick_master
pick_master-IsRefused w none = no_choice-IsRefused none
pick_master-IsRefused w (some nc) = choose-IsRefused w 0 nc

either-IsRefused :
    (b : Bool) (c d : Choice) → IsRefused c → IsRefused d → IsRefused (if b then c else d)
either-IsRefused true c d p q = p
either-IsRefused false c d p q = q

pick-AllRefused :
    (w : World) (t : Topology) (proc : Procedure) (h : Hashed) → AllRefused (pick w t proc h)
unfolding pick AllRefused
pick-AllRefused w t proc Hashed.panicked = tt
pick-AllRefused w t proc (Hashed.failed e) = no_choice-IsRefused (some e)
pick-AllRefused w t proc (Hashed.partition p) =
    either-IsRefused (proc.single_partition && proc.read_only && t.reads_to_replicas) _ _
      (pick_replica-IsRefused w (find_replicas p t.partition_replicas))
      (pick_master-IsRefused w (find_master p t.partition_masters))

pick_for-AllRefused :
    (w : World) (t : Topology) (pi : ProcedureInvocation) (proc : Option Procedure)
    → AllRefused (pick_for w t pi proc)
unfolding pick_for AllRefused
pick_for-AllRefused w t pi none = no_choice-IsRefused none
pick_for-AllRefused w t pi (some proc) = pick-AllRefused w t proc (hashed_partition t proc pi)

get_conn_by_ca-AllRefused :
    (w : World) (t : Topology) (pi : ProcedureInvocation) → AllRefused (get_conn_by_ca w t pi)
unfolding get_conn_by_ca
get_conn_by_ca-AllRefused w t pi =
    pick_for-AllRefused w t pi (find_procedure pi.query t.procedure_infos)

choose_conn-AllRefused :
    (w : World) (t : Option Topology) (pi : ProcedureInvocation) → AllRefused (choose_conn w t pi)
unfolding choose_conn AllRefused
choose_conn-AllRefused w none pi = no_choice-IsRefused none
choose_conn-AllRefused w (some t) pi = get_conn_by_ca-AllRefused w t pi

hand_over-refused :
    (pi : ProcedureInvocation) (c : Choice) (l : Loop)
    → IsRefused c
    → hand_over pi c l ≡ emit (to_all pi) l
unfolding hand_over IsRefused
hand_over-refused pi c l r = elim (Option-cases c.cxn) [ inl e ↦ rw e | inr (nc, e) ↦ rw (e, r) ]

submit_chosen-to_all :
    (pi : ProcedureInvocation) (c : Option Choice) (l : Loop)
    → AllRefused c
    → (submit_chosen pi c l ≡ running (emit (to_all pi) l))
      ⊎ ((submit_chosen pi c l ≡ crashed) × (c ≡ none))
unfolding submit_chosen AllRefused
submit_chosen-to_all pi none l r = inr (refl, refl)
submit_chosen-to_all pi (some c) l r = inl (rw (hand_over-refused pi c l r))

if_true : (b : Bool) (m n : Next) → b ≡ true → (if b then m else n) ≡ m
if_true b m n e = rw e

-- Whatever getConnByCA chooses, an invocation goes to the channel that all nodes read from and never
-- to the chosen node, except that the process panics where getConnByCA does: the condition asks for
-- an error and for no back pressure, and an error comes only with back pressure.
pub invoke-to_all :
    (w : World) (pi : ProcedureInvocation) (l : Loop)
    → l.in_open ≡ true
    → (handle_event (Event.invoke w pi) l ≡ running (emit (to_all pi) l))
      ⊎ ((handle_event (Event.invoke w pi) l ≡ crashed) × (choose_conn w (topology l) pi ≡ none))
unfolding handle_event handle_invoke
invoke-to_all w pi l open_ =
    let opened : handle_event (Event.invoke w pi) l ≡ handle_invoke w pi l =
      if_true l.in_open (handle_invoke w pi l) (running l) open_ in
    elim (submit_chosen-to_all pi (choose_conn w (topology l) pi) l
      (choose_conn-AllRefused w (topology l) pi)) [
        | inl e ↦ inl (opened ∙ e)
        | inr (e, none_) ↦ inr (opened ∙ e, none_)
      ]
