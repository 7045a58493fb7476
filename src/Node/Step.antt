-- ===== src/Node/Step.antt =====
-- One iteration of `loop`, and a run of it (voltdbclient/node_conn.go).
use voltdb_client_go.Common.{ℕ, if◌then◌else◌, true, ℤ, some, List, [], ◌∷◌}
use voltdb_client_go.Invocation.{ProcedureInvocation}
use voltdb_client_go.Node.State.{continue, pressure, closed, Loop, Next, running, stopped, emit}
use voltdb_client_go.Node.Setup.{setup}
use voltdb_client_go.Node.Handlers.{handle_procedure_invocation, handle_response, expire}

-- What the select receives. While ncPiCh is nil nothing comes from it.
pub data Event : Type 0 where
  close : ℕ → Event
  invoke_nc : ProcedureInvocation → Event  -- on ncPiCh
  invoke : ProcedureInvocation → Event  -- on piCh
  respond : List ℕ → Event
  ask_pressure : ℕ → Event
  drain : ℕ → Event
  tick : Event

unfoldable pub handle_event : ℤ → Event → Loop → Next
unfolding handle_procedure_invocation handle_response expire emit
handle_event now (close ch) l = stopped (emit (closed ch) l)
handle_event now (invoke_nc pi) l =
    if l.nc_pi_open then handle_procedure_invocation now pi l else running l
handle_event now (invoke pi) l = handle_procedure_invocation now pi l
handle_event now (respond m) l = handle_response m l
handle_event now (ask_pressure ch) l = running (emit (pressure ch l.bp) l)
handle_event now (drain ch) l = running (record l { draining = true; drain_resp_ch = some ch })
handle_event now tick l = expire now l.requests l

-- One iteration: the clock and the queue lengths at its top, and the event that comes.
pub record Round : Type 0 where
  pub now : ℤ
  pub nc_len : ℕ
  pub pi_len : ℕ
  pub event : Event

unfoldable pub iterate : Round → Loop → Next
unfolding continue setup handle_event
iterate r l = continue (setup r.now r.nc_len r.pi_len l) (handle_event r.now r.event)

unfoldable pub run : List Round → Loop → Next
unfolding continue iterate
run [] l = running l
run (r ∷ rs) l = continue (iterate r l) (run rs)
