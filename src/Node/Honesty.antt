-- ===== src/Node/Honesty.antt =====
-- The back pressure that a node reports (voltdbclient/node_conn.go).
use voltdb_client_go.Common.{
  ℕ, ◌≡◌, ap, refl, arith, true, false, not, ℤ, Option, none, some, List, [], ◌∷◌, Bool-cases, inl,
  inr, Outcome, ok, err, panic, eqb_ℤ,
}
use voltdb_client_go.Wire.Source.{Source, buffer}
use voltdb_client_go.Wire.Decoder
use voltdb_client_go.Invocation.{ProcedureInvocation, get_len}
use voltdb_client_go.Node.State.{
  Effect, pressure, Answer, NetworkRequest, Loop, Next, running, stopped, crashed, continue, emit,
  initial, find_request, replied, ping_handle,
}
use voltdb_client_go.Node.Setup.{
  check_drain, check_pressure, check_ping, ping_due, send_ping, write_to, setup, serialize,
}
use voltdb_client_go.Node.Handlers.{
  accept, handle_procedure_invocation, consume, deliver, complete, dispatch, handle_response,
  expire_one, expire, timed_out, decode_answer, timeout_error,
}
use voltdb_client_go.Node.Step.{Event, Round, handle_event, iterate, run}
use voltdb_client_go.Node.Balance.{After, After-if}

-- Back pressure is reported exactly while the node's own channel is closed.
abbrev pub IsHonest : Loop → Type 0
IsHonest l = l.bp ≡ not l.nc_pi_open

check_drain-IsHonest : (n m : ℕ) (l : Loop) → IsHonest l → IsHonest (check_drain n m l)
unfolding check_drain emit
check_drain-IsHonest n m l v = ground arith

check_pressure-IsHonest : (l : Loop) → IsHonest l → IsHonest (check_pressure l)
unfolding check_pressure
check_pressure-IsHonest l v = ground arith

write_to-IsHonest : (b : Option (List ℕ)) (l : Loop) → IsHonest l → After IsHonest (write_to b l)
unfolding write_to emit
write_to-IsHonest none l v = tt
write_to-IsHonest (some b) l v = v

setup-IsHonest : (now : ℤ) (n m : ℕ) (l : Loop) → IsHonest l → After IsHonest (setup now n m l)
unfolding setup check_ping send_ping
setup-IsHonest now n m l v =
    let top : Loop = check_pressure (check_drain n m l) in
    let w : IsHonest top =
      check_pressure-IsHonest (check_drain n m l) (check_drain-IsHonest n m l v) in
    let pinged : Loop = record top { ping_outstanding = true; ping_sent_time = now } in
    After-if IsHonest (ping_due now top) (send_ping pinged) (running top)
      (write_to-IsHonest _ pinged w) w

accept-IsHonest :
    (now : ℤ) (o : Outcome ProcedureInvocation ℤ) (l : Loop)
    → IsHonest l
    → After IsHonest (accept now o l)
unfolding accept
accept-IsHonest now (ok len pi) l v = write_to-IsHonest (serialize pi) _ v
accept-IsHonest now (err _ _) l v = tt
accept-IsHonest now panic l v = tt

consume-IsHonest :
    (c : Option ℕ) (a : Answer) (l : Loop) → IsHonest l → After IsHonest (consume c a l)
unfolding consume emit
consume-IsHonest none a l v = tt
consume-IsHonest (some c) a l v = v

deliver-IsHonest :
    (req : NetworkRequest) (a : Option Answer) (l : Loop)
    → IsHonest l
    → After IsHonest (deliver req a l)
unfolding deliver emit
deliver-IsHonest req none l v = tt
deliver-IsHonest req (some a) l v =
    After-if IsHonest req.sync (running (emit (replied req.ch a) l)) (consume req.arc a l) v
      (consume-IsHonest req.arc a l v)

complete-IsHonest :
    (h : ℤ) (s : Source) (o : Option NetworkRequest) (l : Loop)
    → IsHonest l
    → After IsHonest (complete h s o l)
unfolding complete
complete-IsHonest h s none l v = v
complete-IsHonest h s (some req) l v = deliver-IsHonest req (decode_answer h req.query s) _ v

dispatch-IsHonest : (o : Outcome Source ℤ) (l : Loop) → IsHonest l → After IsHonest (dispatch o l)
unfolding dispatch
dispatch-IsHonest (ok h s) l v =
    After-if IsHonest (eqb_ℤ h ping_handle) (running (record l { ping_outstanding = false }))
      (complete h s (find_request h l.requests) l) v
      (complete-IsHonest h s (find_request h l.requests) l v)
dispatch-IsHonest (err _ _) l v = v
dispatch-IsHonest panic l v = tt

continue-IsHonest :
    (n : Next) (k : Loop → Next)
    → After IsHonest n
    → ((l : Loop) → IsHonest l → After IsHonest (k l))
    → After IsHonest (continue n k)
unfolding continue
continue-IsHonest (running l) k v h = h l v
continue-IsHonest (stopped l) k v h = v
continue-IsHonest crashed k v h = tt

expire-IsHonest :
    (now : ℤ) (reqs : List NetworkRequest) (l : Loop)
    → IsHonest l
    → After IsHonest (expire now reqs l)
unfolding expire expire_one
expire-IsHonest now [] l v = v
expire-IsHonest now (req ∷ reqs) l v = elim (Bool-cases (timed_out now req)) [
  | inl late ↦
      rw (late, expire)
        (continue-IsHonest (expire_one req l) (expire now reqs)
          (consume-IsHonest req.arc timeout_error _ v) (expire-IsHonest now reqs))
  | inr early ↦ rw (early, expire) (expire-IsHonest now reqs l v)
]

handle_event-IsHonest :
    (now : ℤ) (x : Event) (l : Loop) → IsHonest l → After IsHonest (handle_event now x l)
unfolding handle_event handle_procedure_invocation handle_response emit
handle_event-IsHonest now (Event.close ch) l v = v
handle_event-IsHonest now (Event.invoke_nc pi) l v =
    After-if IsHonest l.nc_pi_open (handle_procedure_invocation now pi l) (running l)
      (accept-IsHonest now (get_len pi) l v) v
handle_event-IsHonest now (Event.invoke pi) l v = accept-IsHonest now (get_len pi) l v
handle_event-IsHonest now (Event.respond m) l v = dispatch-IsHonest (Decoder.int64 (buffer m)) l v
handle_event-IsHonest now (Event.ask_pressure ch) l v = v
handle_event-IsHonest now (Event.drain ch) l v = v
handle_event-IsHonest now Event.tick l v = expire-IsHonest now l.requests l v

run-from : (rs : List Round) (l : Loop) → IsHonest l → After IsHonest (run rs l)
unfolding run iterate
run-from [] l v = v
run-from (r ∷ rs) l v =
    continue-IsHonest (iterate r l) (run rs)
      (continue-IsHonest (setup r.now r.nc_len r.pi_len l) (handle_event r.now r.event)
        (setup-IsHonest r.now r.nc_len r.pi_len l v) (handle_event-IsHonest r.now r.event))
      (run-from rs)

-- The last thing done is an answer on channel `ch`: whether the node's own channel is closed.
abbrev pub Tells : ℕ → Next → Type 0
Tells ch (running l) = (xs : List Effect) × (l.effects ≡ pressure ch (not l.nc_pi_open) ∷ xs)
Tells ch _ = Unit {0}

continue-Tells :
    (ch : ℕ) (n : Next) (k : Loop → Next)
    → After IsHonest n
    → ((l : Loop) → IsHonest l → Tells ch (k l))
    → Tells ch (continue n k)
unfolding continue
continue-Tells ch (running l) k v h = h l v
continue-Tells ch (stopped l) k v h = tt
continue-Tells ch crashed k v h = tt

ask_pressure-Tells :
    (now : ℤ) (ch : ℕ) (l : Loop)
    → IsHonest l
    → Tells ch (handle_event now (Event.ask_pressure ch) l)
unfolding handle_event emit
ask_pressure-Tells now ch l v = (l.effects, ap (λ b. pressure ch b ∷ l.effects) v)

-- A call of hasBP after any run of the loop is answered, on its channel, with whether the node's own
-- channel of invocations is closed, unless the loop has returned or the process has panicked before;
-- and the flag of the loop says the same after the run.
pub run-IsHonest :
    (now then : ℤ) (rs : List Round) (nc_len pi_len ch : ℕ)
    → After IsHonest (run rs (initial now))
      × Tells ch (
          continue (run rs (initial now)) (
            iterate (record {
              now = then;
              nc_len = nc_len;
              pi_len = pi_len;
              event = Event.ask_pressure ch;
            })))
unfolding initial iterate
run-IsHonest now then rs nc_len pi_len ch =
    let honest : After IsHonest (run rs (initial now)) = run-from rs (initial now) refl in
    (
      honest,
      continue-Tells ch (run rs (initial now)) _ honest (λ l v.
          continue-Tells ch (setup then nc_len pi_len l) (handle_event then (Event.ask_pressure ch))
            (setup-IsHonest then nc_len pi_len l v) (ask_pressure-Tells then ch)),
    )
