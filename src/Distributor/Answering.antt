-- ===== src/Distributor/Answering.antt =====
-- When the distributor's `loop` answers Drain (voltdbclient/distributor.go).
use voltdb_client_go.Common.{
  ℕ, ◌==◌, ◌≡◌, refl, sym, ◌∙◌, ap, inl, inr, subst, arith, true, false, List, [], ◌∷◌, ◌++◌,
  length, Bool, if◌then◌else◌, Bool-cases, ◌||◌,
}
use mathlib.Core.Path.{fun_ext}
use voltdb_client_go.Distributor.State.{
  Effect, submitted, to_all, asked_topo, asked_stats, asked_catalog, close_node, drain_node, closed,
  drained, Loop, Next, running, stopped, crashed, continue,
}
use voltdb_client_go.Distributor.Loop.{Event, Round, handle_event, run}
use voltdb_client_go.Distributor.Drain.{answered, is_channel}
use voltdb_client_go.Distributor.Desk.{
  Desk, desk_of, visible, Service, going, over, tell, before_event, take_drain, attend, and_then,
  serve,
}
use voltdb_client_go.Distributor.Service.{Refines, handle_event-desk, and_then-Refines, run-Refines}
use voltdb_client_go.Distributor.Waits.{
  WhileGoing, IsWaiting, Progress, NoDrains, drain_answers, answered-here, before_event-done,
  attend-answered, serve-Progress, WhileGoing-and_then,
}

-- A property of the loop as long as it goes on.
abbrev pub WhileRunning : (Loop → Type 0) → Next → Type 0
WhileRunning P (running l) = P l
WhileRunning P _ = Unit {0}

-- What holds at the desk holds of the loop.
pub WhileRunning-desk :
    (P : Desk → Type 0) (n : Next) (s : Service)
    → Refines n s
    → WhileGoing P s
    → WhileRunning (λ l. P (desk_of l)) n
WhileRunning-desk P (running l) (going d) r p = subst P (sym r) p
WhileRunning-desk P (running l) (over d) r p = absurd r
WhileRunning-desk P (stopped l) s r p = tt
WhileRunning-desk P crashed s r p = tt

pub WhileRunning-map :
    {P Q : Loop → Type 0} (n : Next)
    → ((l : Loop) → P l → Q l)
    → WhileRunning P n
    → WhileRunning Q n
WhileRunning-map (running l) h p = h l p
WhileRunning-map (stopped l) h p = tt
WhileRunning-map crashed h p = tt

answered-visible : (ch : ℕ) (xs : List Effect) → answered ch (visible xs) ≡ answered ch xs
unfolding answered visible
answered-visible ch [] = refl
answered-visible ch (submitted nc pi ∷ xs) = answered-visible ch xs
answered-visible ch (to_all pi ∷ xs) = answered-visible ch xs
answered-visible ch (asked_topo nc ∷ xs) = answered-visible ch xs
answered-visible ch (asked_stats nc ∷ xs) = answered-visible ch xs
answered-visible ch (asked_catalog nc ∷ xs) = answered-visible ch xs
answered-visible ch (close_node nc ∷ xs) = answered-visible ch xs
answered-visible ch (drain_node nc ∷ xs) = answered-visible ch xs
answered-visible ch (closed c ∷ xs) = answered-visible ch xs
answered-visible ch (drained c ∷ xs) = ap (λ b. is_channel ch c || b) (answered-visible ch xs)

-- The loop that has taken an event and runs on, at the desk.
pub taken-desk :
    (x : Event) (rs : List Round) (l : Loop)
    → Refines (continue (handle_event x l) (run rs)) (and_then (attend x (desk_of l)) (serve rs))
taken-desk x rs l =
    and_then-Refines (handle_event x l) (attend x (desk_of l)) (run rs) (serve rs)
      (handle_event-desk x l) (run-Refines rs)

pub taken :
    (P : Desk → Type 0) (b : Bool) (s t : Service)
    → b ≡ true
    → WhileGoing P s
    → WhileGoing P (if b then s else t)
taken P b s t e p = rw e p

take_drain-alone :
    (ch : ℕ) (d : Desk)
    → d.draining ≡ false
    → d.nodes == 0 ≡ true
    → answered ch (take_drain ch d).sent ≡ true
unfolding take_drain tell
take_drain-alone ch d e z = rw (e, z) (answered-here ch d.sent)

pub take_drain-IsWaiting :
    (ch : ℕ) (d : Desk)
    → d.draining ≡ false
    → d.nodes == 0 ≡ false
    → IsWaiting ch d.nodes (take_drain ch d)
unfolding take_drain
take_drain-IsWaiting ch d e z = ground arith

take_drain-Progress :
    (ch : ℕ) (d : Desk) → d.draining ≡ false → Progress ch d.nodes (take_drain ch d)
take_drain-Progress ch d e = elim (Bool-cases (d.nodes == 0)) [
  | inl z ↦ inl (take_drain-alone ch d e z)
  | inr z ↦ inr (take_drain-IsWaiting ch d e z)
]

and_then_assoc :
    (s : Service) (j k : Desk → Service)
    → and_then (and_then s j) k ≡ and_then s (λ d. and_then (j d) k)
unfolding and_then
and_then_assoc (going d) j k = refl
and_then_assoc (over d) j k = refl

pub serve-append :
    (rs ss : List Round) (d : Desk) → serve (rs ++ ss) d ≡ and_then (serve rs d) (serve ss)
unfolding serve and_then
serve-append [] ss d = refl
serve-append (r ∷ rs) ss d =
    ap (and_then (attend r.event (before_event r.in_len d))) (fun_ext (serve-append rs ss))
    ∙ sym (and_then_assoc (attend r.event (before_event r.in_len d)) (serve rs) (serve ss))

last-answered :
    (ch : ℕ) (r : Round) (d : Desk)
    → r.in_len ≡ 0
    → Progress ch 0 d
    → WhileGoing (λ e. answered ch e.sent ≡ true) (serve (r ∷ []) d)
unfolding serve and_then
last-answered ch r d e p =
    WhileGoing-and_then (λ c. answered ch c.sent ≡ true) (λ c. answered ch c.sent ≡ true)
      (attend r.event (before_event r.in_len d)) going
      (attend-answered ch r.event (before_event r.in_len d) (rw e (before_event-done ch d p)))
      (λ c q. q)

drain-served :
    (ch : ℕ) (rs : List Round) (r : Round) (d : Desk)
    → d.open_for_calls ≡ true
    → d.draining ≡ false
    → NoDrains rs
    → drain_answers rs ≡ d.nodes
    → r.in_len ≡ 0
    → WhileGoing
        (λ e. answered ch e.sent ≡ true)
        (and_then (attend (Event.drain ch) d) (serve (rs ++ r ∷ [])))
unfolding attend
drain-served ch rs r d o e q n z =
    WhileGoing-and_then (Progress ch (drain_answers rs)) (λ c. answered ch c.sent ≡ true)
      (attend (Event.drain ch) d) (serve (rs ++ r ∷ []))
      (taken (Progress ch (drain_answers rs)) d.open_for_calls (going (take_drain ch d)) (going d) o
        (rw n (take_drain-Progress ch d e)))
      (λ c p. rw (serve-append rs (r ∷ []) c) (
        WhileGoing-and_then (Progress ch 0) (λ b. answered ch b.sent ≡ true) (serve rs c)
          (serve (r ∷ [])) (serve-Progress ch rs c q p) (λ b. last-answered ch r b z)))

-- A call of Drain is answered: when the loop has taken it, not being in a drain, and as many nodes
-- have said that they have drained as are connected, the caller has its answer after the next
-- iteration that finds no invocation queued. In between no other call of Drain comes; everything
-- else may. The loop has not ended by a Close, and the process not by a panic.
pub drain-answered :
    (ch : ℕ) (rs : List Round) (r : Round) (l : Loop)
    → l.in_open ≡ true
    → l.draining ≡ false
    → NoDrains rs
    → drain_answers rs ≡ length l.connected
    → r.in_len ≡ 0
    → WhileRunning
        (λ m. answered ch m.effects ≡ true)
        (continue (handle_event (Event.drain ch) l) (run (rs ++ r ∷ [])))
unfolding desk_of
drain-answered ch rs r l o e q n z =
    let end = continue (handle_event (Event.drain ch) l) (run (rs ++ r ∷ [])) in
    WhileRunning-map end (λ m h. sym (answered-visible ch m.effects) ∙ h)
      (WhileRunning-desk (λ d. answered ch d.sent ≡ true) end
        (and_then (attend (Event.drain ch) (desk_of l)) (serve (rs ++ r ∷ [])))
        (taken-desk (Event.drain ch) (rs ++ r ∷ []) l) (drain-served ch rs r (desk_of l) o e q n z))
