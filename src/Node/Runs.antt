-- ===== src/Node/Runs.antt =====
-- The byte count of `loop` (voltdbclient/node_conn.go) after any run.
use voltdb_client_go.Common.{refl, ℤ, List, [], ◌∷◌}
use voltdb_client_go.Wire.Decoder
use voltdb_client_go.Wire.Source.{buffer}
use voltdb_client_go.Node.State.{Loop, Next, running, stopped, crashed, emit, initial, continue}
use voltdb_client_go.Node.Setup.{setup}
use voltdb_client_go.Node.Handlers.{handle_procedure_invocation, handle_response}
use voltdb_client_go.Node.Step.{Event, Round, handle_event, iterate, run}
use voltdb_client_go.Node.Requests.{AllHeld-refl}
use voltdb_client_go.Node.Balance.{
  IsBalanced, After, After-if, IsFresh, setup-IsBalanced, invoke-IsBalanced,
}
use voltdb_client_go.Node.Completion.{dispatch-IsBalanced, expire-IsBalanced}

-- Every event keeps the byte count exact.
handle_event-IsBalanced :
    (now : ℤ) (x : Event) (l : Loop)
    → IsBalanced l
    → IsFresh x l
    → After IsBalanced (handle_event now x l)
unfolding handle_event emit handle_response
handle_event-IsBalanced now (Event.close ch) l v f = record {
  exact = v.exact;
  distinct = v.distinct;
}
handle_event-IsBalanced now (Event.invoke_nc pi) l v f =
    After-if IsBalanced l.nc_pi_open (handle_procedure_invocation now pi l) (running l)
      (invoke-IsBalanced now pi l v f) v
handle_event-IsBalanced now (Event.invoke pi) l v f = invoke-IsBalanced now pi l v f
handle_event-IsBalanced now (Event.respond m) l v f =
    dispatch-IsBalanced (Decoder.int64 (buffer m)) l v
handle_event-IsBalanced now (Event.ask_pressure ch) l v f = record {
  exact = v.exact;
  distinct = v.distinct;
}
handle_event-IsBalanced now (Event.drain ch) l v f = record {
  exact = v.exact;
  distinct = v.distinct;
}
handle_event-IsBalanced now Event.tick l v f =
    expire-IsBalanced now l.requests l v.distinct (AllHeld-refl l.requests v.distinct) v

continue-IsBalanced :
    (n : Next) (k : Loop → Next) (G : Loop → Type 0)
    → After IsBalanced n
    → After G n
    → ((m : Loop) → IsBalanced m → G m → After IsBalanced (k m))
    → After IsBalanced (continue n k)
unfolding continue
continue-IsBalanced (running l) k G v g h = h l v g
continue-IsBalanced (stopped l) k G v g h = v
continue-IsBalanced crashed k G v g h = tt

iterate-IsBalanced :
    (r : Round) (l : Loop)
    → IsBalanced l
    → After (IsFresh r.event) (setup r.now r.nc_len r.pi_len l)
    → After IsBalanced (iterate r l)
unfolding iterate
iterate-IsBalanced r l v f =
    continue-IsBalanced (setup r.now r.nc_len r.pi_len l) (handle_event r.now r.event)
      (IsFresh r.event) (setup-IsBalanced r.now r.nc_len r.pi_len l v) f
      (λ m w g. handle_event-IsBalanced r.now r.event m w g)

-- No round of a run brings a handle that is outstanding at that point.
abbrev pub AllFresh : List Round → Loop → Type 0
AllFresh [] l = Unit {0}
AllFresh (r ∷ rs) l =
    After (IsFresh r.event) (setup r.now r.nc_len r.pi_len l) × After (AllFresh rs) (iterate r l)

run-from : (rs : List Round) (l : Loop) → IsBalanced l → AllFresh rs l → After IsBalanced (run rs l)
unfolding run
run-from [] l v f = v
run-from (r ∷ rs) l v (f, fs) =
    continue-IsBalanced (iterate r l) (run rs) (AllFresh rs) (iterate-IsBalanced r l v f) fs
      (λ m w g. run-from rs m w g)

-- After any run of the loop in which no handle is used again while it is outstanding, the count of
-- queued bytes is the sum of the sizes of the outstanding requests.
pub run-IsBalanced :
    (now : ℤ) (rs : List Round)
    → AllFresh rs (initial now)
    → After IsBalanced (run rs (initial now))
unfolding initial
run-IsBalanced now rs f = run-from rs (initial now) (record { exact = refl; distinct = tt }) f
