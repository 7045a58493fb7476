-- ===== src/Limiter.antt =====
-- The latency limiter (voltdbclient/latency_limiter.go). An instant is a number of nanoseconds. The
-- methods run under a mutex, so the calls are steps that come one after the other; the clock stands
-- still during a step. The factors 0.9 and 1.1 are exact tenths: up to the limit of 20 the rounded
-- products of float64 are the same.
use voltdb_client_go.Common.{
  ℕ, zero, suc, ◌+◌, ◌-◌, ◌*◌, ◌/◌, ltb, ◌==◌, not, if◌then◌else◌, Bool, true, false, ℤ, pos,
  negsuc, ◌+ℤ◌, ◌-ℤ◌, ltb_ℤ, eqb_ℤ, List, [], ◌∷◌,
}
use voltdb_client_go.Word.{wrap, w32}
use voltdb_client_go.Wire.Instant.{quot}
pub mod Bounds
pub mod Semaphore
pub mod Waiting
mod Tests

-- BlockDuration and OutTXNsLimit
abbrev pub block_duration : ℕ
block_duration = 100000000

abbrev pub out_txns_limit : ℕ
out_txns_limit = 20

pub record LatencyLimiter : Type 0 where
  pub block_start : ℕ
  pub max_out_txns : ℕ
  pub out_txns : ℤ
  pub latency : ℤ
  pub latency_txns : ℕ
  pub latency_target : ℤ

unfoldable pub new_latency_limiter : ℕ → ℤ → LatencyLimiter
new_latency_limiter now latency_target = record {
  block_start = now;
  max_out_txns = out_txns_limit;
  out_txns = pos 0;
  latency = pos 0;
  latency_txns = 0;
  latency_target = latency_target;
}

unfoldable pub has_permit : LatencyLimiter → Bool
has_permit ll = not (ltb_ℤ (pos ll.max_out_txns) ll.out_txns)

unfoldable pub get_permit : LatencyLimiter → LatencyLimiter
unfolding has_permit
get_permit ll = if has_permit ll then record ll { out_txns = ll.out_txns +ℤ pos 1 } else ll

-- The loop of nextBlock on the start of the block.
unfoldable pub next_start : ℕ → ℕ → ℕ → ℕ
next_start zero now start = start
next_start (suc n) now start =
    let rest = next_start n now (start + block_duration) in
    if ltb block_duration (now - start) then rest else start

-- math.Ceil of a quotient.
unfoldable pub ceil_div : ℤ → ℕ → ℤ
ceil_div (pos n) k = pos ((n + k - 1) / k)
ceil_div (negsuc n) k = quot k (negsuc n)

unfoldable pub slower : ℕ → ℕ
slower n = let m = n * 9 / 10 in if m == 0 then 1 else m

unfoldable pub faster : ℕ → ℕ
faster n =
    let m = (n * 11 + 9) / 10 in
    if ltb n out_txns_limit then (if ltb out_txns_limit m then out_txns_limit else m) else n

unfoldable pub calc_latency : LatencyLimiter → LatencyLimiter
unfolding ceil_div slower faster
calc_latency ll = if ll.latency_txns == 0 then ll else record ll {
  max_out_txns =
      if ltb_ℤ ll.latency_target (ceil_div ll.latency ll.latency_txns)
      then slower ll.max_out_txns
      else faster ll.max_out_txns;
  latency = pos 0;
  latency_txns = 0;
}

-- `for ll.nextBlock() { ll.calcLatency() }`: the second call of nextBlock finds no block to pass.
unfoldable pub next_blocks : ℕ → LatencyLimiter → LatencyLimiter
unfolding next_start calc_latency
next_blocks now ll =
    let start = next_start (now - ll.block_start) now ll.block_start in
    if start == ll.block_start then ll else calc_latency (record ll { block_start = start })

unfoldable pub count_response : ℤ → LatencyLimiter → LatencyLimiter
count_response latency ll =
    if eqb_ℤ latency (negsuc 0) then record ll { out_txns = ll.out_txns -ℤ pos 1 } else record ll {
      latency = wrap w32 (ll.latency +ℤ latency);
      latency_txns = suc ll.latency_txns;
      out_txns = ll.out_txns -ℤ pos 1;
    }

unfoldable pub response_received : ℕ → ℤ → LatencyLimiter → LatencyLimiter
unfolding next_blocks count_response
response_received now latency ll = count_response latency (next_blocks now ll)

-- The calls of the limiter.
pub data Call : Type 0 where
  permit : Call
  response : ℕ → ℤ → Call  -- at an instant, with a latency

unfoldable pub step : Call → LatencyLimiter → LatencyLimiter
unfolding get_permit response_received
step permit ll = get_permit ll
step (response now latency) ll = response_received now latency ll

unfoldable pub run : List Call → LatencyLimiter → LatencyLimiter
unfolding step
run [] ll = ll
run (c ∷ cs) ll = run cs (step c ll)
