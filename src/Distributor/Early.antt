-- ===== src/Distributor/Early.antt =====
-- Drain and invocations that are handed on late
-- (voltdbclient/distributor.go).
use voltdb_client_go.Common.{
  ℕ, ◌+◌, ◌==◌, ◌≡◌, ◌∙◌, ap, arith, true, false, some, List, [], ◌∷◌, ◌++◌, length,
}
use voltdb_client_go.Invocation.{ProcedureInvocation}
use voltdb_client_go.Distributor.Affinity.{World}
use voltdb_client_go.Distributor.State.{Effect, to_all, drained, Loop, continue}
use voltdb_client_go.Distributor.Loop.{Event, Round, check_drain, handle_event, run}
use voltdb_client_go.Distributor.Desk.{
  Desk, desk_of, visible, going, tell, before_event, node_closed, take_drain, attend, and_then,
  serve,
}
use voltdb_client_go.Distributor.Service.{check_drain-desk}
use voltdb_client_go.Distributor.Waits.{
  WhileGoing, IsWaiting, Busy, drain_answers, before_event-told, before_event-IsWaiting, heard,
  before_event-IsWaiting, heard, WhileGoing-and_then,
}
use voltdb_client_go.Distributor.Answering.{
  WhileRunning, WhileRunning-desk, WhileRunning-map, taken-desk, taken, take_drain-IsWaiting,
  serve-append,
}

-- The event is a call neither of Drain nor of Close.
abbrev pub IsNoCall : Event → Type 0
IsNoCall (Event.close ch) = ⊥
IsNoCall (Event.drain ch) = ⊥
IsNoCall _ = Unit {0}

abbrev pub NoCalls : List Round → Type 0
NoCalls [] = Unit {0}
NoCalls (r ∷ rs) = IsNoCall r.event × NoCalls rs

-- Neither, while the desk waits for the nodes and takes invocations.
record IsHeld (ch k : ℕ) (d : Desk) : Type 0 where
  pub waiting : IsWaiting ch k d
  pub opened : d.open_for_calls ≡ true

before_event-IsHeld :
    (ch k n : ℕ) (d : Desk) → n == 0 ≡ false → IsHeld ch k d → IsHeld ch k (before_event n d)
unfolding before_event
before_event-IsHeld ch k n d e v = record {
  waiting = before_event-IsWaiting ch k n d e v.waiting;
  opened = rw e (ground arith);
}

attend-IsHeld :
    (ch k : ℕ) (x : Event) (d : Desk)
    → IsNoCall x
    → IsHeld ch (heard x + k) d
    → WhileGoing (IsHeld ch k) (attend x d)
unfolding attend tell node_closed
attend-IsHeld ch k (Event.close c) d q v = absurd q
attend-IsHeld ch k Event.closing_nc d q v = ground arith
attend-IsHeld ch k (Event.topo_resp b) d q v = ground arith
attend-IsHeld ch k (Event.topo_stats_resp r) d q v = ground arith
attend-IsHeld ch k (Event.pr_info_resp o) d q v = ground arith
attend-IsHeld ch k (Event.invoke w pi) d q v = ground arith
attend-IsHeld ch k (Event.drain c) d q v = absurd q
attend-IsHeld ch k Event.draining_nc d q v = ground arith

serve-IsHeld :
    (ch : ℕ) (rs : List Round) (d : Desk)
    → NoCalls rs
    → Busy rs
    → IsHeld ch (drain_answers rs) d
    → WhileGoing (IsHeld ch 0) (serve rs d)
unfolding serve
serve-IsHeld ch [] d q b v = v
serve-IsHeld ch (r ∷ rs) d (q, qs) (b, bs) v =
    WhileGoing-and_then (IsHeld ch (drain_answers rs)) (IsHeld ch 0)
      (attend r.event (before_event r.in_len d)) (serve rs)
      (attend-IsHeld ch (drain_answers rs) r.event (before_event r.in_len d) q
        (before_event-IsHeld ch (drain_answers (r ∷ rs)) r.in_len d b v))
      (λ e. serve-IsHeld ch rs e qs bs)

-- The next top of an iteration answers `ch`, right behind the invocation.
abbrev AnsweredBehind : ℕ → ProcedureInvocation → Desk → Type 0
AnsweredBehind ch pi d =
    (xs : List Effect) × ((before_event 0 d).sent ≡ drained (some ch) ∷ to_all pi ∷ xs)

handed-behind :
    (ch : ℕ) (w : World) (pi : ProcedureInvocation) (d : Desk)
    → IsHeld ch 0 d
    → WhileGoing (AnsweredBehind ch pi) (attend (Event.invoke w pi) d)
unfolding attend tell
handed-behind ch w pi d v =
    taken (AnsweredBehind ch pi) d.open_for_calls (going (record d { sent = to_all pi ∷ d.sent }))
      (going d) v.opened
      (
        d.sent,
        before_event-told ch (record d { sent = to_all pi ∷ d.sent })
            (record {
              waits = v.waiting.waits;
              caller = v.waiting.caller;
              hears = v.waiting.hears;
              left = v.waiting.left;
            }),
      )

last-handed :
    (ch : ℕ) (w : World) (pi : ProcedureInvocation) (r : Round) (d : Desk)
    → r.event ≡ Event.invoke w pi
    → r.in_len == 0 ≡ false
    → IsHeld ch 0 d
    → WhileGoing (AnsweredBehind ch pi) (serve (r ∷ []) d)
unfolding serve and_then
last-handed ch w pi r d x z v =
    WhileGoing-and_then (AnsweredBehind ch pi) (AnsweredBehind ch pi)
      (attend r.event (before_event r.in_len d)) going
      (rw x
        (handed-behind ch w pi (before_event r.in_len d) (before_event-IsHeld ch 0 r.in_len d z v)))
      (λ c q. q)

take_drain-opened :
    (ch : ℕ) (d : Desk)
    → d.draining ≡ false
    → d.nodes == 0 ≡ false
    → d.open_for_calls ≡ true
    → (take_drain ch d).open_for_calls ≡ true
unfolding take_drain
take_drain-opened ch d e s o = ground arith

module _ (ch : ℕ) (w : World) (pi : ProcedureInvocation) (rs : List Round) (r : Round) where
  early-served :
      (d : Desk)
      → d.open_for_calls ≡ true
      → d.draining ≡ false
      → d.nodes == 0 ≡ false
      → NoCalls rs
      → Busy rs
      → drain_answers rs ≡ d.nodes
      → r.event ≡ Event.invoke w pi
      → r.in_len == 0 ≡ false
      → WhileGoing
          (AnsweredBehind ch pi)
          (and_then (attend (Event.drain ch) d) (serve (rs ++ r ∷ [])))
  unfolding attend
  early-served d o e s q b n x z =
      WhileGoing-and_then (IsHeld ch (drain_answers rs)) (AnsweredBehind ch pi)
        (attend (Event.drain ch) d) (serve (rs ++ r ∷ []))
        (taken (IsHeld ch (drain_answers rs)) d.open_for_calls (going (take_drain ch d)) (going d) o
          (rw n (record {
            waiting = take_drain-IsWaiting ch d e s;
            opened = take_drain-opened ch d e s o;
          })))
        (λ c p. rw (serve-append rs (r ∷ []) c) (
          WhileGoing-and_then (IsHeld ch 0) (AnsweredBehind ch pi) (serve rs c) (serve (r ∷ []))
            (serve-IsHeld ch rs c q b p) (λ m v. last-handed ch w pi r m x z v)))

  -- Drain can be answered too early. The loop takes a call of Drain while invocations are queued;
  -- all nodes say that they have drained; then the loop hands on an invocation `pi` that was queued,
  -- and no other is left. The next iteration answers the call, right behind the invocation. In
  -- between no other call of Drain or Close comes; the process has not panicked.
  pub drain_early :
      (l : Loop)
      → l.in_open ≡ true
      → l.draining ≡ false
      → length l.connected == 0 ≡ false
      → NoCalls rs
      → Busy rs
      → drain_answers rs ≡ length l.connected
      → r.event ≡ Event.invoke w pi
      → r.in_len == 0 ≡ false
      → WhileRunning
          (λ m.
            (xs : List Effect) × (visible (check_drain 0 m).effects
              ≡ drained (some ch) ∷ to_all pi ∷ xs))
          (continue (handle_event (Event.drain ch) l) (run (rs ++ r ∷ [])))
  unfolding desk_of
  drain_early l o e s q b n x z =
      let end = continue (handle_event (Event.drain ch) l) (run (rs ++ r ∷ [])) in
      WhileRunning-map end (λ m h. (h.0, ap (λ (d : Desk). d.sent) (check_drain-desk 0 m) ∙ h.1))
        (WhileRunning-desk (AnsweredBehind ch pi) end
          (and_then (attend (Event.drain ch) (desk_of l)) (serve (rs ++ r ∷ [])))
          (taken-desk (Event.drain ch) (rs ++ r ∷ []) l) (early-served (desk_of l) o e s q b n x z))
