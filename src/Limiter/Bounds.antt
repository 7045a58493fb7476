-- ===== src/Limiter/Bounds.antt =====
-- Bounds of the latency limiter (voltdbclient/latency_limiter.go).
use voltdb_client_go.Common.{
  ℕ, zero, suc, ◌+◌, ◌-◌, ◌≤◌, ◌≡◌, refl, arith, ltb, ◌==◌, false, ℤ, pos, negsuc, ◌+ℤ◌, ◌≤ℤ◌,
  ltb_ℤ, eqb_ℤ, List, [], ◌∷◌, Bool-cases, inl, inr, replicate, ap, ◌∙◌,
}
use voltdb_client_go.Limiter.{
  LatencyLimiter, block_duration, new_latency_limiter, has_permit, get_permit, next_start, ceil_div,
  slower, faster, calc_latency, next_blocks, count_response, response_received, Call, permit,
  response, step, run,
}

-- The allowed number stays between 1 and 20; at most one more than 20 are outstanding.
pub record IsBounded (ll : LatencyLimiter) : Type 0 where
  pub some_allowed : 1 ≤ ll.max_out_txns
  pub few_allowed : ll.max_out_txns ≤ 20
  pub few_out : ll.out_txns ≤ℤ pos 21

slower_lem : (n : ℕ) → 1 ≤ n → n ≤ 20 → (1 ≤ slower n) × (slower n ≤ 20)
unfolding slower
slower_lem n lo hi = (ground arith, ground arith)

faster_lem : (n : ℕ) → 1 ≤ n → n ≤ 20 → (1 ≤ faster n) × (faster n ≤ 20)
unfolding faster
faster_lem n lo hi = (ground arith, ground arith)

get_permit-IsBounded : (ll : LatencyLimiter) → IsBounded ll → IsBounded (get_permit ll)
unfolding get_permit has_permit
get_permit-IsBounded ll v = ground arith

count_response-IsBounded :
    (latency : ℤ) (ll : LatencyLimiter) → IsBounded ll → IsBounded (count_response latency ll)
unfolding count_response
count_response-IsBounded latency ll v = elim (Bool-cases (eqb_ℤ latency (negsuc 0))) [
  | inl e ↦ rw e (record {
    some_allowed = v.some_allowed;
    few_allowed = v.few_allowed;
    few_out = ground arith;
  })
  | inr e ↦ rw e (record {
    some_allowed = v.some_allowed;
    few_allowed = v.few_allowed;
    few_out = ground arith;
  })
]

calc_latency-IsBounded : (ll : LatencyLimiter) → IsBounded ll → IsBounded (calc_latency ll)
unfolding calc_latency
calc_latency-IsBounded ll v =
    let (slo, shi) = slower_lem ll.max_out_txns v.some_allowed v.few_allowed in
    let (flo, fhi) = faster_lem ll.max_out_txns v.some_allowed v.few_allowed in
    elim (Bool-cases (ll.latency_txns == 0)) [
      | inl e ↦ rw e v
      | inr e ↦ elim (Bool-cases (ltb_ℤ ll.latency_target (ceil_div ll.latency ll.latency_txns))) [
        | inl s ↦ rw (e, s) (record { some_allowed = slo; few_allowed = shi; few_out = v.few_out })
        | inr s ↦ rw (e, s) (record { some_allowed = flo; few_allowed = fhi; few_out = v.few_out })
      ]
    ]

next_blocks-IsBounded :
    (now : ℕ) (ll : LatencyLimiter) → IsBounded ll → IsBounded (next_blocks now ll)
unfolding next_blocks
next_blocks-IsBounded now ll v =
    let start : ℕ = next_start (now - ll.block_start) now ll.block_start in
    let moved : LatencyLimiter = record ll { block_start = start } in
    elim (Bool-cases (start == ll.block_start)) [
      | inl e ↦ rw e v
      | inr e ↦ rw e (
          calc_latency-IsBounded moved (record {
            some_allowed = v.some_allowed;
            few_allowed = v.few_allowed;
            few_out = v.few_out;
          }))
    ]

step-IsBounded : (c : Call) (ll : LatencyLimiter) → IsBounded ll → IsBounded (step c ll)
unfolding step response_received
step-IsBounded permit ll v = get_permit-IsBounded ll v
step-IsBounded (response now latency) ll v =
    count_response-IsBounded latency (next_blocks now ll) (next_blocks-IsBounded now ll v)

run-from : (cs : List Call) (ll : LatencyLimiter) → IsBounded ll → IsBounded (run cs ll)
unfolding run
run-from [] ll v = v
run-from (c ∷ cs) ll v = run-from cs (step c ll) (step-IsBounded c ll v)

-- After any calls of a new limiter, whatever the latencies and the target, the number of allowed
-- transactions is between 1 and 20, and at most 21 are outstanding.
pub run-IsBounded :
    (now : ℕ) (target : ℤ) (cs : List Call) → IsBounded (run cs (new_latency_limiter now target))
unfolding new_latency_limiter
run-IsBounded now target cs =
    run-from cs (new_latency_limiter now target)
      (record { some_allowed = omega arith; few_allowed = omega arith; few_out = omega arith })

granted :
    (j : ℕ) (ll : LatencyLimiter)
    → ll.out_txns ≡ pos j
    → ll.max_out_txns ≡ 20
    → j ≤ 20
    → get_permit ll ≡ record ll { out_txns = ll.out_txns +ℤ pos 1 }
unfolding get_permit has_permit
granted j ll o m h =
    let allowed : ltb_ℤ (pos ll.max_out_txns) ll.out_txns ≡ false = ground arith in simp allowed

permits-from :
    (k j : ℕ) (ll : LatencyLimiter)
    → ll.out_txns ≡ pos j
    → ll.max_out_txns ≡ 20
    → j + k ≤ 21
    → (run (replicate k permit) ll).out_txns ≡ pos (j + k)
unfolding run step
permits-from zero j ll o m h = o ∙ ap pos (omega arith)
permits-from (suc k) j ll o m h =
    let e = granted j ll o m (omega arith) in
    let plus : pos j +ℤ pos 1 ≡ pos (suc j) = ground arith in
    permits-from k (suc j) (get_permit ll) (ap (λ x. x.out_txns) e ∙ ap (λ x. x +ℤ pos 1) o ∙ plus)
      (ap (λ x. x.max_out_txns) e ∙ m) (omega arith)
    ∙ ap pos (omega arith)

-- A new limiter grants 21 permits in a row, one more than its limit of 20.
pub permits_21 :
    (now : ℕ) (target : ℤ) (k : ℕ)
    → k ≤ 21
    → (run (replicate k permit) (new_latency_limiter now target)).out_txns ≡ pos k
unfolding new_latency_limiter
permits_21 now target k h =
    permits-from k 0 (new_latency_limiter now target) refl refl (omega arith) ∙ ap pos (omega arith)

next_start_lem : (n now start : ℕ) → now ≤ n + start → now ≤ next_start n now start + block_duration
unfolding next_start
next_start_lem zero now start h = omega arith
next_start_lem (suc n) now start h = elim (Bool-cases (ltb block_duration (now - start))) [
  | inl e ↦ rw e (next_start_lem n now (start + block_duration) (omega arith))
  | inr e ↦ rw e (ground arith)
]

next_start_le : (n now start : ℕ) → start ≤ now → next_start n now start ≤ now
unfolding next_start
next_start_le zero now start h = h
next_start_le (suc n) now start h = elim (Bool-cases (ltb block_duration (now - start))) [
  | inl e ↦ rw e (next_start_le n now (start + block_duration) (ground arith))
  | inr e ↦ rw e h
]

-- From a block that has started, the loop of nextBlock ends with a block that has started and that
-- the clock is not beyond.
pub next_start-ends :
    (now start : ℕ)
    → start ≤ now
    → (next_start (now - start) now start ≤ now)
      × (now ≤ next_start (now - start) now start + block_duration)
next_start-ends now start h =
    (next_start_le (now - start) now start h, next_start_lem (now - start) now start (omega arith))
