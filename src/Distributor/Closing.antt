-- ===== src/Distributor/Closing.antt =====
-- Calls of Close of voltdbclient/distributor.go that wait at the desk.
use voltdb_client_go.Common.{
  ℕ, zero, suc, ◌+◌, ◌-◌, ◌≤◌, ◌≡◌, refl, ap, inl, inr, subst, arith, Bool, true, false, some, List,
  [], ◌∷◌, pos, ◌-ℤ◌, eqb_ℤ, if◌then◌else◌, Bool-cases,
}
use voltdb_client_go.Invocation.{ProcedureInvocation}
use voltdb_client_go.Distributor.State.{
  Effect, submitted, to_all, asked_topo, asked_stats, asked_catalog, close_node, drain_node, closed,
  drained,
}
use voltdb_client_go.Distributor.Loop.{Event, Round}
use voltdb_client_go.Distributor.Desk.{
  Desk, Service, going, over, tell, before_event, node_closed, attend, and_then, serve,
}

-- The invocations that have been passed on.
unfoldable pub handed : List Effect → List ProcedureInvocation
handed [] = []
handed (submitted nc pi ∷ xs) = pi ∷ handed xs
handed (to_all pi ∷ xs) = pi ∷ handed xs
handed (closed ch ∷ xs) = handed xs
handed (drained ch ∷ xs) = handed xs
handed (asked_topo nc ∷ xs) = handed xs
handed (asked_stats nc ∷ xs) = handed xs
handed (asked_catalog nc ∷ xs) = handed xs
handed (close_node nc ∷ xs) = handed xs
handed (drain_node nc ∷ xs) = handed xs

-- How many nodes say in these rounds that they have closed.
abbrev pub has_closed : Event → ℕ
has_closed Event.closing_nc = 1
has_closed _ = 0

abbrev pub close_answers : List Round → ℕ
close_answers [] = 0
close_answers (r ∷ rs) = has_closed r.event + close_answers rs

-- The caller of Close on channel `ch` waits for `k` nodes; `hs` has been passed on before.
pub record IsClosing (ch k : ℕ) (hs : List ProcedureInvocation) (d : Desk) : Type 0 where
  pub shut : d.open_for_calls ≡ false
  pub caller : d.close_caller ≡ some ch
  pub hears : d.hears_closed ≡ true
  pub left : d.closes_left ≡ pos k
  pub kept : handed d.sent ≡ hs

-- It has been answered, and nothing has been passed on.
abbrev pub ClosedBy : ℕ → List ProcedureInvocation → List Effect → Type 0
ClosedBy ch hs sent = (xs : List Effect) × (sent ≡ closed (some ch) ∷ xs) × (handed sent ≡ hs)

-- The caller still waits for `k` nodes, of one at least, or the service is over.
abbrev pub Closes : ℕ → ℕ → List ProcedureInvocation → Service → Type 0
Closes ch k hs (going d) = (1 ≤ k) × IsClosing ch k hs d
Closes ch k hs (over d) = ClosedBy ch hs d.sent

before_event-IsClosing :
    (ch k n : ℕ) (hs : List ProcedureInvocation) (d : Desk)
    → IsClosing ch k hs d
    → IsClosing ch k hs (before_event n d)
unfolding before_event tell handed
before_event-IsClosing ch k n hs d v = ground arith

Closes-else :
    (ch k : ℕ) (hs : List ProcedureInvocation) (b : Bool) (s t : Service)
    → b ≡ false
    → Closes ch k hs t
    → Closes ch k hs (if b then s else t)
Closes-else ch k hs b s t e c = rw e c

Closes-then :
    (ch k : ℕ) (hs : List ProcedureInvocation) (b : Bool) (s t : Service)
    → b ≡ true
    → Closes ch k hs s
    → Closes ch k hs (if b then s else t)
Closes-then ch k hs b s t e c = rw e c

-- Nothing has come from a node.
Closes-same :
    (ch k : ℕ) (hs : List ProcedureInvocation) (d : Desk)
    → 1 ≤ k
    → IsClosing ch k hs d
    → Closes ch (k - 0) hs (going d)
Closes-same ch k hs d h v =
    let e : k ≡ k - 0 = omega arith in subst (λ n. Closes ch n hs (going d)) e (h, v)

last_left : (d : Desk) → d.closes_left ≡ pos 1 → eqb_ℤ (d.closes_left -ℤ pos 1) (pos 0) ≡ true
last_left d e = rw e refl

more_left :
    (k : ℕ) (d : Desk)
    → d.closes_left ≡ pos (suc (suc k))
    → eqb_ℤ (d.closes_left -ℤ pos 1) (pos 0) ≡ false
more_left k d e = ground arith

fewer_left :
    (k : ℕ) (d : Desk)
    → d.closes_left ≡ pos (suc (suc k))
    → d.closes_left -ℤ pos 1 ≡ pos (suc (suc k) - 1)
fewer_left k d e = ground arith

node_closed-Closes :
    (ch k : ℕ) (hs : List ProcedureInvocation) (d : Desk)
    → 1 ≤ k
    → IsClosing ch k hs d
    → Closes ch (k - 1) hs (node_closed d)
unfolding node_closed tell handed
node_closed-Closes ch zero hs d h v = absurd (omega arith)
node_closed-Closes ch (suc zero) hs d h v =
    Closes-then ch 0 hs (eqb_ℤ (d.closes_left -ℤ pos 1) (pos 0)) _ _ (last_left d v.left)
      (d.sent, ap (λ c. closed c ∷ d.sent) v.caller, v.kept)
node_closed-Closes ch (suc (suc k)) hs d h v =
    Closes-else ch (suc (suc k) - 1) hs (eqb_ℤ (d.closes_left -ℤ pos 1) (pos 0)) _ _
      (more_left k d v.left)
      (
        omega arith,
        record {
          shut = v.shut;
          caller = v.caller;
          hears = v.hears;
          left = fewer_left k d v.left;
          kept = v.kept;
        },
      )

attend-Closes :
    (ch k : ℕ) (hs : List ProcedureInvocation) (x : Event) (d : Desk)
    → 1 ≤ k
    → IsClosing ch k hs d
    → Closes ch (k - has_closed x) hs (attend x d)
unfolding attend
attend-Closes ch k hs (Event.close c) d h v =
    Closes-else ch (k - 0) hs d.open_for_calls _ _ v.shut (Closes-same ch k hs d h v)
attend-Closes ch k hs Event.closing_nc d h v =
    Closes-then ch (k - 1) hs d.hears_closed _ _ v.hears (node_closed-Closes ch k hs d h v)
attend-Closes ch k hs (Event.topo_resp b) d h v = Closes-same ch k hs d h v
attend-Closes ch k hs (Event.topo_stats_resp r) d h v = Closes-same ch k hs d h v
attend-Closes ch k hs (Event.pr_info_resp o) d h v = Closes-same ch k hs d h v
attend-Closes ch k hs (Event.invoke w pi) d h v =
    Closes-else ch (k - 0) hs d.open_for_calls _ _ v.shut (Closes-same ch k hs d h v)
attend-Closes ch k hs (Event.drain c) d h v =
    Closes-else ch (k - 0) hs d.open_for_calls _ _ v.shut (Closes-same ch k hs d h v)
attend-Closes ch k hs Event.draining_nc d h v = elim (Bool-cases d.hears_drained) [
  | inl e ↦ Closes-then ch (k - 0) hs d.hears_drained _ _ e (
      Closes-same ch k hs (record d { drains_left = d.drains_left -ℤ pos 1 }) h
        (record {
          shut = v.shut;
          caller = v.caller;
          hears = v.hears;
          left = v.left;
          kept = v.kept;
        }))
  | inr e ↦ Closes-else ch (k - 0) hs d.hears_drained _ _ e (Closes-same ch k hs d h v)
]

-- The service is over.
abbrev pub Over : (Desk → Type 0) → Service → Type 0
Over P (going d) = ⊥
Over P (over d) = P d

pub Over-and_then :
    (ch k : ℕ) (hs : List ProcedureInvocation) (s : Service) (j : Desk → Service)
    → Closes ch k hs s
    → ((d : Desk) → 1 ≤ k → IsClosing ch k hs d → Over (λ e. ClosedBy ch hs e.sent) (j d))
    → Over (λ e. ClosedBy ch hs e.sent) (and_then s j)
unfolding and_then
Over-and_then ch k hs (going d) j c h = h d c.0 c.1
Over-and_then ch k hs (over d) j c h = c

pub serve-Over :
    (ch k : ℕ) (hs : List ProcedureInvocation) (rs : List Round) (d : Desk)
    → 1 ≤ k
    → k ≤ close_answers rs
    → IsClosing ch k hs d
    → Over (λ e. ClosedBy ch hs e.sent) (serve rs d)
unfolding serve
serve-Over ch k hs [] d h m v = absurd (omega arith)
serve-Over ch k hs (r ∷ rs) d h m v =
    Over-and_then ch (k - has_closed r.event) hs (attend r.event (before_event r.in_len d))
      (serve rs)
      (attend-Closes ch k hs r.event (before_event r.in_len d) h
        (before_event-IsClosing ch k r.in_len hs d v))
      (λ e i c. serve-Over ch (k - has_closed r.event) hs rs e i (omega arith) c)
