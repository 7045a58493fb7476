-- ===== src/Node/Idle.antt =====
-- When `loop` says that it has drained (voltdbclient/node_conn.go).
use voltdb_client_go.Common.{
  ℕ, ◌+◌, ◌≤◌, ◌==◌, ◌≡◌, ◌⊎◌, refl, sym, ap, ◌∙◌, subst, arith, Bool, true, false, ◌&&◌, ℤ, pos,
  negsuc, ◌≤ℤ◌, eqb_ℤ, if◌then◌else◌, none, some, List, [], ◌∷◌, length, Option-cases, Bool-cases,
  inl, inr, All, ok,
}
use voltdb_client_go.Invocation.{
  ProcedureInvocation, get_len, calc_len, calc_param_len, add_param_lens,
}
use voltdb_client_go.Wire.Value.{Value}
use voltdb_client_go.Node.State.{
  NetworkRequest, Loop, Next, running, stopped, crashed, initial, emit, drained,
}
use voltdb_client_go.Node.Setup.{check_drain}
use voltdb_client_go.Node.Handlers.{request_of}
use voltdb_client_go.Node.Step.{Event, Round, run}
use voltdb_client_go.Node.Requests.{total}
use voltdb_client_go.Node.Balance.{After, IsBalanced, request_of-fields}
use voltdb_client_go.Node.Runs.{AllFresh, run-IsBalanced}
use voltdb_client_go.Node.Held.{Keeps, Brings, run-Keeps}

abbrev IsSized : NetworkRequest → Type 0
IsSized r = pos 1 ≤ℤ r.num_bytes

total-nonneg : (rs : List NetworkRequest) → All IsSized rs → pos 0 ≤ℤ total rs
total-nonneg [] h = omega arith
total-nonneg (r ∷ rs) (h, hs) = ground (arith, total-nonneg rs hs)

total-zero : (rs : List NetworkRequest) → All IsSized rs → total rs ≡ pos 0 → rs ≡ []
total-zero [] h e = refl
total-zero (r ∷ rs) (h, hs) e = absurd (ground (arith, total-nonneg rs hs))

-- The invocation has not been measured yet.
abbrev pub IsUnmeasured : Event → Type 0
IsUnmeasured (Event.invoke_nc pi) = pi.slen ≡ negsuc 0
IsUnmeasured (Event.invoke pi) = pi.slen ≡ negsuc 0
IsUnmeasured _ = Unit {0}

add_param_lens-ge : (m n : ℕ) (vs : List Value) → add_param_lens m vs ≡ some n → m ≤ n
unfolding add_param_lens
add_param_lens-ge m n [] e = ground arith
add_param_lens-ge m n (v ∷ vs) e = elim (Option-cases (calc_param_len v)) [
  | inl z ↦ absurd (ground arith)
  | inr (k, z) ↦ ground (arith, add_param_lens-ge (m + k) n vs)
]

get_len-sized :
    (pi pi' : ProcedureInvocation) (len : ℤ)
    → pi.slen ≡ negsuc 0
    → get_len pi ≡ ok len pi'
    → pos 1 ≤ℤ len
unfolding get_len calc_len
get_len-sized pi pi' len u e =
    elim (Option-cases (add_param_lens (15 + length pi.query) pi.params)) [
      | inl z ↦ absurd (ground arith)
      | inr (n, z) ↦ ground (arith, add_param_lens-ge (15 + length pi.query) n pi.params z)
    ]

-- The size of an unmeasured invocation is that of a request.
request-IsSized :
    (pi : ProcedureInvocation) (now : ℤ)
    → pi.slen ≡ negsuc 0
    → (pi' : ProcedureInvocation) (len : ℤ) → get_len pi ≡ ok len pi'
    → IsSized (request_of pi' len now)
request-IsSized pi now u pi' len e =
    subst (λ n. pos 1 ≤ℤ n) (sym (request_of-fields pi' len now).0) (get_len-sized pi pi' len u e)

IsUnmeasured-Brings : (now : ℤ) (x : Event) → IsUnmeasured x → Brings IsSized (λ e. Unit {0}) now x
IsUnmeasured-Brings now (Event.close c) h = tt
IsUnmeasured-Brings now (Event.invoke_nc pi) h = request-IsSized pi now h
IsUnmeasured-Brings now (Event.invoke pi) h = request-IsSized pi now h
IsUnmeasured-Brings now (Event.respond m) h = tt
IsUnmeasured-Brings now (Event.ask_pressure c) h = tt
IsUnmeasured-Brings now (Event.drain c) h = tt
IsUnmeasured-Brings now Event.tick h = tt

All-Brings :
    (rs : List Round)
    → All (λ r. IsUnmeasured r.event) rs
    → All (λ r. Brings IsSized (λ e. Unit {0}) r.now r.event) rs
All-Brings [] h = tt
All-Brings (r ∷ rs) (h, hs) = (IsUnmeasured-Brings r.now r.event h, All-Brings rs hs)

After-held :
    (n : Next) → After (Keeps IsSized (λ e. Unit {0})) n → After (λ l. All IsSized l.requests) n
After-held (running l) v = v.held
After-held (stopped l) v = v.held
After-held crashed v = tt

run-IsSized :
    (now : ℤ) (rs : List Round)
    → All (λ r. IsUnmeasured r.event) rs
    → After (λ l. All IsSized l.requests) (run rs (initial now))
run-IsSized now rs h =
    After-held (run rs (initial now))
      (run-Keeps IsSized (λ e. Unit {0}) (λ x s. tt) (λ r k s a z e. tt) now rs (All-Brings rs h))

-- No request is outstanding, and no invocation waits in the two channels.
abbrev pub IsIdle : ℕ → ℕ → Loop → Type 0
IsIdle nc_len pi_len l = (l.requests ≡ []) × (nc_len ≡ 0) × (pi_len ≡ 0)

-- The loop that has told the caller of a drain.
abbrev pub told : Loop → Loop
told l = emit (drained l.drain_resp_ch) (record l { drain_resp_ch = none; draining = false })

idle_test : ℕ → ℕ → Loop → Bool
idle_test nc_len pi_len l = l.draining && eqb_ℤ l.queued_bytes (pos 0) && nc_len == 0 && pi_len == 0

check_drain-if : (n m : ℕ) (l : Loop) → check_drain n m l ≡ (if idle_test n m l then told l else l)
unfolding check_drain idle_test
check_drain-if n m l = refl

idle_test-true :
    (n m : ℕ) (l : Loop)
    → IsBalanced l
    → All IsSized l.requests
    → idle_test n m l ≡ true
    → IsIdle n m l
unfolding idle_test
idle_test-true n m l v w t =
    let (q, a, b) : (l.queued_bytes ≡ pos 0) × (n ≡ 0) × (m ≡ 0) = ground arith in
    (total-zero l.requests w (sym v.exact ∙ q), a, b)

idle_test-idle :
    (n m : ℕ) (l : Loop) → IsBalanced l → l.draining ≡ true → IsIdle n m l → idle_test n m l ≡ true
unfolding idle_test
idle_test-idle n m l v d (r, a, b) =
    let q : l.queued_bytes ≡ pos 0 = v.exact ∙ ap total r in ground arith

-- After a run of the loop in which each invocation comes unmeasured and under a handle that is not
-- outstanding, let a drain be on. The test on the drain at the top of the next iteration ends it and
-- tells the caller if no request is outstanding and both channels of invocations are empty; otherwise
-- it changes nothing.
pub drain-IsIdle :
    (now : ℤ) (rs : List Round) (nc_len pi_len : ℕ) (l : Loop)
    → AllFresh rs (initial now)
    → All (λ r. IsUnmeasured r.event) rs
    → run rs (initial now) ≡ running l
    → l.draining ≡ true
    → (IsIdle nc_len pi_len l × (check_drain nc_len pi_len l ≡ told l))
      ⊎ ((¬ IsIdle nc_len pi_len l) × (check_drain nc_len pi_len l ≡ l))
drain-IsIdle now rs n m l f u e d =
    let v : IsBalanced l = subst (After IsBalanced) e (run-IsBalanced now rs f) in
    let w : All IsSized l.requests =
      subst (After (λ k. All IsSized k.requests)) e (run-IsSized now rs u) in
    elim (Bool-cases (idle_test n m l)) [
      | inl t ↦
          inl
            (idle_test-true n m l v w t, check_drain-if n m l ∙ ap (λ b. if b then told l else l) t)
      | inr t ↦ inr (
        (λ i. ground (arith, idle_test-idle n m l v d i)),
        check_drain-if n m l ∙ ap (λ b. if b then told l else l) t,
      )
    ]
