-- ===== src/Limiter/Tests.antt =====
-- The bounds of the latency limiter at concrete calls (voltdbclient/latency_limiter.go).
use voltdb_client_go.Common.{◌+◌, ◌≤◌, arith, pos, negsuc, List, [], ◌∷◌}
use voltdb_client_go.Limiter.{
  new_latency_limiter, block_duration, next_start, Call, permit, response, run,
}
use voltdb_client_go.Limiter.Bounds.{IsBounded, run-IsBounded, next_start-ends}

-- Two permits, a slow response in the next block, and one without a latency.
abbrev calls : List Call
calls = permit ∷ permit ∷ response 50000000 (pos 900) ∷ response 350000000 (negsuc 0) ∷ permit ∷ []

run-IsBounded_example : IsBounded (run calls (new_latency_limiter 0 (pos 20)))
run-IsBounded_example = run-IsBounded 0 (pos 20) calls

next_start-ends_example :
    (next_start 350000000 350000000 0 ≤ 350000000)
    × (350000000 ≤ next_start 350000000 350000000 0 + block_duration)
next_start-ends_example = next_start-ends 350000000 0 (omega arith)
