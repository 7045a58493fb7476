-- ===== src/Limiter/Waiting.antt =====
-- The waiting loop of the latency limiter (`limit`, voltdbclient/latency_limiter.go). A poll is one
-- round: what other goroutines have done to the limiter before it, and the time that has passed
-- since the start of the call after its sleep. The loop runs on the polls that are looked at.
use voltdb_client_go.Common.{
  ℕ, ◌<◌, ltb, ◌≡◌, ◌⊎◌, inl, inr, arith, Bool, true, false, if◌then◌else◌, List, [], ◌∷◌,
}
use voltdb_client_go.Limiter.{LatencyLimiter, Call, run, has_permit, get_permit}

pub record Poll : Type 0 where
  pub others : List Call
  pub elapsed : ℕ

pub data Waited : Type 0 where
  permitted : LatencyLimiter → Waited
  timed_out : LatencyLimiter → Waited
  waiting : LatencyLimiter → Waited

-- A round, and then the others.
unfoldable pub polled : ℕ → ℕ → (LatencyLimiter → Waited) → LatencyLimiter → Waited
unfolding has_permit get_permit
polled timeout elapsed rest ll =
    if has_permit ll
    then permitted (get_permit ll)
    else if ltb timeout elapsed
    then timed_out ll
    else rest ll

unfoldable pub limit : ℕ → List Poll → LatencyLimiter → Waited
unfolding polled run
limit timeout [] ll = waiting ll
limit timeout (p ∷ ps) ll = polled timeout p.elapsed (limit timeout ps) (run p.others ll)

-- The call is over.
abbrev pub IsOver : Waited → Type 0
IsOver (permitted ll) = Unit {0}
IsOver (timed_out ll) = Unit {0}
IsOver (waiting ll) = ⊥

polled-IsOver :
    (b : Bool) (ll : LatencyLimiter) (late : Bool) (rest : Waited)
    → (late ≡ true) ⊎ IsOver rest
    → IsOver (if b then permitted (get_permit ll) else if late then timed_out ll else rest)
polled-IsOver true ll late rest h = tt
polled-IsOver false ll true rest h = tt
polled-IsOver false ll false rest (inl e) = absurd (ground arith)
polled-IsOver false ll false rest (inr r) = r

-- Some poll is later than the timeout.
abbrev pub Late : ℕ → List Poll → Type 0
Late timeout [] = ⊥
Late timeout (p ∷ ps) = (timeout < p.elapsed) ⊎ Late timeout ps

-- The loop ends with a permit or by its timeout, at the latest with the first poll that is later
-- than the timeout, whatever the other goroutines do.
pub limit-IsOver :
    (timeout : ℕ) (ps : List Poll) (ll : LatencyLimiter)
    → Late timeout ps
    → IsOver (limit timeout ps ll)
unfolding limit polled
limit-IsOver timeout [] ll h = absurd h
limit-IsOver timeout (p ∷ ps) ll (inl e) =
    polled-IsOver (has_permit (run p.others ll)) (run p.others ll) (ltb timeout p.elapsed) _
      (inl (ground arith))
limit-IsOver timeout (p ∷ ps) ll (inr h) =
    polled-IsOver (has_permit (run p.others ll)) (run p.others ll) (ltb timeout p.elapsed) _
      (inr (limit-IsOver timeout ps (run p.others ll) h))
