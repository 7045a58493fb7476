-- ===== src/Node/Balance.antt =====
-- The byte count of `loop` (voltdbclient/node_conn.go) is the size of the outstanding requests: the
-- invariant, the top of an iteration and new invocations.
use voltdb_client_go.Common.{
  Outcome, ℕ, ◌≡◌, refl, sym, ap, ◌∙◌, arith, Bool, true, false, ℤ, ◌+ℤ◌, if◌then◌else◌, Option,
  none, some, List, +ℤ_comm, ok, err, panic,
}
use voltdb_client_go.Invocation.{ProcedureInvocation, get_len}
use voltdb_client_go.Node.State.{
  NetworkRequest, new_sync_request, new_async_request, Loop, Next, running, stopped, crashed,
  find_request, put_request, emit,
}
use voltdb_client_go.Node.Setup.{
  check_drain, check_pressure, check_ping, ping_due, send_ping, write_to, setup, serialize,
}
use voltdb_client_go.Node.Handlers.{accept, request_of, handle_procedure_invocation}
use voltdb_client_go.Node.Step.{Event}
use voltdb_client_go.Node.Requests.{total, Distinct, Distinct-put, delete_fresh}

-- The byte count is exact, and no handle is outstanding twice.
pub record IsBalanced (l : Loop) : Type 0 where
  pub exact : l.queued_bytes ≡ total l.requests
  pub distinct : Distinct l.requests

-- A property of the loop wherever it goes on or has returned.
abbrev pub After {ℓ} : (Loop → Type ℓ) → Next → Type ℓ
After P (running l) = P l
After P (stopped l) = P l
After P crashed = Unit {ℓ}

-- A new invocation comes under a handle that is not outstanding.
abbrev pub IsFresh : Event → Loop → Type 0
IsFresh (Event.invoke_nc pi) l = find_request pi.handle l.requests ≡ none
IsFresh (Event.invoke pi) l = find_request pi.handle l.requests ≡ none
IsFresh _ l = Unit {0}

pub write_to-IsBalanced :
    (b : Option (List ℕ)) (l : Loop) → IsBalanced l → After IsBalanced (write_to b l)
unfolding write_to emit
write_to-IsBalanced none l v = tt
write_to-IsBalanced (some b) l v = record { exact = v.exact; distinct = v.distinct }

pub check_drain-IsBalanced :
    (nc_len pi_len : ℕ) (l : Loop) → IsBalanced l → IsBalanced (check_drain nc_len pi_len l)
unfolding check_drain emit
check_drain-IsBalanced nc_len pi_len l v = ground arith

pub check_pressure-IsBalanced : (l : Loop) → IsBalanced l → IsBalanced (check_pressure l)
unfolding check_pressure
check_pressure-IsBalanced l v = ground arith

-- Either branch of a test.
pub After-if :
    (P : Loop → Type 0) (b : Bool) (m n : Next)
    → After P m
    → After P n
    → After P (if b then m else n)
After-if P true m n h k = h
After-if P false m n h k = k

pub check_ping-IsBalanced :
    (now : ℤ) (l : Loop) → IsBalanced l → After IsBalanced (check_ping now l)
unfolding check_ping send_ping
check_ping-IsBalanced now l v =
    let pinged : Loop = record l { ping_outstanding = true; ping_sent_time = now } in
    After-if IsBalanced (ping_due now l) (send_ping pinged) (running l)
      (write_to-IsBalanced _ pinged (record { exact = v.exact; distinct = v.distinct })) v

pub setup-IsBalanced :
    (now : ℤ) (nc_len pi_len : ℕ) (l : Loop)
    → IsBalanced l
    → After IsBalanced (setup now nc_len pi_len l)
unfolding setup
setup-IsBalanced now nc_len pi_len l v =
    check_ping-IsBalanced now _
      (check_pressure-IsBalanced _ (check_drain-IsBalanced nc_len pi_len l v))

pub get_len-slen :
    (pi pi' : ProcedureInvocation) (n : ℤ)
    → get_len pi ≡ ok n pi'
    → (pi'.slen ≡ n) × (pi'.handle ≡ pi.handle) × (pi'.async ≡ pi.async)
unfolding get_len
get_len-slen pi pi' n e = ground arith

pub request_of-fields :
    (pi : ProcedureInvocation) (n now : ℤ)
    → ((request_of pi n now).num_bytes ≡ n) × ((request_of pi n now).handle ≡ pi.handle)
unfolding request_of new_sync_request new_async_request
request_of-fields pi n now = ground arith

pub put-IsBalanced :
    (l : Loop) (r : NetworkRequest)
    → IsBalanced l
    → find_request r.handle l.requests ≡ none
    → IsBalanced (record l {
      requests = put_request r l.requests;
      queued_bytes = l.queued_bytes +ℤ r.num_bytes;
    })
unfolding put_request
put-IsBalanced l r v fresh = record {
  exact =
      rw (delete_fresh r.handle l.requests fresh, v.exact) (+ℤ_comm (total l.requests) r.num_bytes);
  distinct = unfold put_request in Distinct-put r l.requests v.distinct;
}

pub accept-IsBalanced :
    (now : ℤ) (pi : ProcedureInvocation) (o : Outcome ProcedureInvocation ℤ) (l : Loop)
    → get_len pi ≡ o
    → IsBalanced l
    → find_request pi.handle l.requests ≡ none
    → After IsBalanced (accept now o l)
unfolding accept
accept-IsBalanced now pi (ok len pi') l e v fresh =
    let (slen, handle, _) = get_len-slen pi pi' len e in
    let (bytes, key) = request_of-fields pi' len now in
    let req : NetworkRequest = request_of pi' len now in
    let entered : IsBalanced (record l {
      requests = put_request req l.requests;
      queued_bytes = l.queued_bytes +ℤ req.num_bytes;
    }) =
      put-IsBalanced l req v (ap (λ h. find_request h l.requests) (key ∙ handle) ∙ fresh) in
    write_to-IsBalanced (serialize pi') _ (record {
      exact = ap (◌+ℤ◌ l.queued_bytes) (slen ∙ sym bytes) ∙ entered.exact;
      distinct = entered.distinct;
    })
accept-IsBalanced now pi (err _ _) l e v fresh = tt
accept-IsBalanced now pi panic l e v fresh = tt

pub invoke-IsBalanced :
    (now : ℤ) (pi : ProcedureInvocation) (l : Loop)
    → IsBalanced l
    → find_request pi.handle l.requests ≡ none
    → After IsBalanced (handle_procedure_invocation now pi l)
unfolding handle_procedure_invocation
invoke-IsBalanced now pi l = accept-IsBalanced now pi (get_len pi) l refl
