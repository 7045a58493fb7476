-- ===== src/Distributor/Waits.antt =====
-- Calls of Drain and Close of voltdbclient/distributor.go that wait at the desk.
use voltdb_client_go.Common.{
  ℕ, zero, suc, ◌+◌, ◌==◌, ◌≡◌, ap, ◌∙◌, inl, inr, ◌⊎◌, arith, true, false, some, List, [], ◌∷◌,
  pos, Bool-cases,
}
use voltdb_client_go.Distributor.State.{
  Effect, submitted, to_all, asked_topo, asked_stats, asked_catalog, close_node, drain_node, closed,
  drained,
}
use voltdb_client_go.Distributor.Loop.{Event, Round}
use voltdb_client_go.Distributor.Drain.{answered}
use voltdb_client_go.Distributor.Desk.{
  Desk, Service, going, over, tell, before_event, take_close, node_closed, take_drain, attend,
  and_then, serve,
}

abbrev pub WhileGoing : (Desk → Type 0) → Service → Type 0
WhileGoing P (going d) = P d
WhileGoing P (over d) = Unit {0}

-- The caller of Drain on channel `ch` waits for `k` nodes.
pub record IsWaiting (ch k : ℕ) (d : Desk) : Type 0 where
  pub waits : d.draining ≡ true
  pub caller : d.drain_caller ≡ some ch
  pub hears : d.hears_drained ≡ true
  pub left : d.drains_left ≡ pos k

abbrev pub Progress : ℕ → ℕ → Desk → Type 0
Progress ch k d = (answered ch d.sent ≡ true) ⊎ IsWaiting ch k d

-- The event is no call of Drain.
abbrev pub IsNoDrain : Event → Type 0
IsNoDrain (Event.drain ch) = ⊥
IsNoDrain _ = Unit {0}

abbrev pub heard : Event → ℕ
heard Event.draining_nc = 1
heard _ = 0

answered-more :
    (ch : ℕ) (x : Effect) (xs : List Effect) → answered ch xs ≡ true → answered ch (x ∷ xs) ≡ true
unfolding answered
answered-more ch (submitted nc pi) xs h = h
answered-more ch (drained c) xs h = ground arith
answered-more ch (to_all pi) xs h = h
answered-more ch (asked_topo nc) xs h = h
answered-more ch (asked_stats nc) xs h = h
answered-more ch (asked_catalog nc) xs h = h
answered-more ch (close_node nc) xs h = h
answered-more ch (drain_node nc) xs h = h
answered-more ch (closed c) xs h = h

pub answered-here : (ch : ℕ) (xs : List Effect) → answered ch (drained (some ch) ∷ xs) ≡ true
unfolding answered
answered-here ch xs = ground arith

before_event-answered :
    (ch n : ℕ) (d : Desk) → answered ch d.sent ≡ true → answered ch (before_event n d).sent ≡ true
unfolding before_event tell
before_event-answered ch n d h = ground (arith, answered-more ch (drained d.drain_caller) d.sent h)

pub attend-answered :
    (ch : ℕ) (x : Event) (d : Desk)
    → answered ch d.sent ≡ true
    → WhileGoing (λ e. answered ch e.sent ≡ true) (attend x d)
unfolding attend tell take_close take_drain node_closed
attend-answered ch (Event.close c) d h = ground (arith, answered-more ch (closed (some c)) d.sent h)
attend-answered ch Event.closing_nc d h =
    ground (arith, answered-more ch (closed d.close_caller) d.sent h)
attend-answered ch (Event.topo_resp b) d h = h
attend-answered ch (Event.topo_stats_resp r) d h = h
attend-answered ch (Event.pr_info_resp o) d h = h
attend-answered ch (Event.invoke w pi) d h = ground (arith, answered-more ch (to_all pi) d.sent h)
attend-answered ch (Event.drain c) d h =
    ground (arith, answered-more ch (drained (some c)) d.sent h)
attend-answered ch Event.draining_nc d h = ground arith

pub before_event-IsWaiting :
    (ch k n : ℕ) (d : Desk) → n == 0 ≡ false → IsWaiting ch k d → IsWaiting ch k (before_event n d)
unfolding before_event
before_event-IsWaiting ch k n d e v = ground arith

pub attend-IsWaiting :
    (ch k : ℕ) (x : Event) (d : Desk)
    → IsNoDrain x
    → IsWaiting ch (heard x + k) d
    → WhileGoing (IsWaiting ch k) (attend x d)
unfolding attend tell take_close node_closed
attend-IsWaiting ch k (Event.close c) d q v = ground arith
attend-IsWaiting ch k Event.closing_nc d q v = ground arith
attend-IsWaiting ch k (Event.topo_resp b) d q v = ground arith
attend-IsWaiting ch k (Event.topo_stats_resp r) d q v = ground arith
attend-IsWaiting ch k (Event.pr_info_resp o) d q v = ground arith
attend-IsWaiting ch k (Event.invoke w pi) d q v = ground arith
attend-IsWaiting ch k (Event.drain c) d q v = absurd q
attend-IsWaiting ch k Event.draining_nc d q v = ground arith

idle-Progress :
    (ch k n : ℕ) (d : Desk) → n == 0 ≡ true → IsWaiting ch k d → Progress ch k (before_event n d)
unfolding before_event tell
idle-Progress ch zero n d e v = inl (rw (v.waits, e, v.left, v.caller) (answered-here ch d.sent))
idle-Progress ch (suc k) n d e v = inr (ground arith)

pub before_event-told :
    (ch : ℕ) (d : Desk) → IsWaiting ch 0 d → (before_event 0 d).sent ≡ drained (some ch) ∷ d.sent
unfolding before_event tell
before_event-told ch d v = ground arith

weaken :
    {P Q : Desk → Type 0} (s : Service) (h : (d : Desk) → P d → Q d)
    → WhileGoing P s
    → WhileGoing Q s
weaken (going d) h p = h d p
weaken (over d) h p = tt

before_event-Progress : (ch k n : ℕ) (d : Desk) → Progress ch k d → Progress ch k (before_event n d)
before_event-Progress ch k n d (inl h) = inl (before_event-answered ch n d h)
before_event-Progress ch k n d (inr v) = elim (Bool-cases (n == 0)) [
  | inl e ↦ idle-Progress ch k n d e v
  | inr e ↦ inr (before_event-IsWaiting ch k n d e v)
]

attend-Progress :
    (ch k : ℕ) (x : Event) (d : Desk)
    → IsNoDrain x
    → Progress ch (heard x + k) d
    → WhileGoing (Progress ch k) (attend x d)
attend-Progress ch k x d q (inl h) = weaken (attend x d) (λ e. inl) (attend-answered ch x d h)
attend-Progress ch k x d q (inr v) = weaken (attend x d) (λ e. inr) (attend-IsWaiting ch k x d q v)

-- How many nodes say in these rounds that they have drained.
abbrev pub drain_answers : List Round → ℕ
drain_answers [] = 0
drain_answers (r ∷ rs) = heard r.event + drain_answers rs

abbrev pub NoDrains : List Round → Type 0
NoDrains [] = Unit {0}
NoDrains (r ∷ rs) = IsNoDrain r.event × NoDrains rs

-- Invocations are queued at the top of each round.
abbrev pub Busy : List Round → Type 0
Busy [] = Unit {0}
Busy (r ∷ rs) = (r.in_len == 0 ≡ false) × Busy rs

pub WhileGoing-and_then :
    (P Q : Desk → Type 0) (s : Service) (k : Desk → Service)
    → WhileGoing P s
    → ((d : Desk) → P d → WhileGoing Q (k d))
    → WhileGoing Q (and_then s k)
unfolding and_then
WhileGoing-and_then P Q (going d) k p h = h d p
WhileGoing-and_then P Q (over d) k p h = tt

pub serve-Progress :
    (ch : ℕ) (rs : List Round) (d : Desk)
    → NoDrains rs
    → Progress ch (drain_answers rs) d
    → WhileGoing (Progress ch 0) (serve rs d)
unfolding serve
serve-Progress ch [] d q p = p
serve-Progress ch (r ∷ rs) d (q, qs) p =
    WhileGoing-and_then (Progress ch (drain_answers rs)) (Progress ch 0)
      (attend r.event (before_event r.in_len d)) (serve rs)
      (attend-Progress ch (drain_answers rs) r.event (before_event r.in_len d) q
        (before_event-Progress ch (drain_answers (r ∷ rs)) r.in_len d p))
      (λ e. serve-Progress ch rs e qs)

pub serve-IsWaiting :
    (ch : ℕ) (rs : List Round) (d : Desk)
    → NoDrains rs
    → Busy rs
    → IsWaiting ch (drain_answers rs) d
    → WhileGoing (IsWaiting ch 0) (serve rs d)
unfolding serve
serve-IsWaiting ch [] d q b v = v
serve-IsWaiting ch (r ∷ rs) d (q, qs) (b, bs) v =
    WhileGoing-and_then (IsWaiting ch (drain_answers rs)) (IsWaiting ch 0)
      (attend r.event (before_event r.in_len d)) (serve rs)
      (attend-IsWaiting ch (drain_answers rs) r.event (before_event r.in_len d) q
        (before_event-IsWaiting ch (drain_answers (r ∷ rs)) r.in_len d b v))
      (λ e. serve-IsWaiting ch rs e qs bs)

-- With no node left the answer is given as soon as no invocation is queued.
pub before_event-done :
    (ch : ℕ) (d : Desk) → Progress ch 0 d → answered ch (before_event 0 d).sent ≡ true
before_event-done ch d (inl h) = before_event-answered ch 0 d h
before_event-done ch d (inr v) =
    ap (answered ch) (before_event-told ch d v) ∙ answered-here ch d.sent
