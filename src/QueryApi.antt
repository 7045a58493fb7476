-- ===== src/QueryApi.antt =====
-- The calls of a connection (voltdbclient/query_api.go) with the handles that it gives out
-- (voltdbclient/distributor.go). A call sends an invocation on inPiCh; a synchronous one then waits
-- for its channel or for its timer.
use voltdb_client_go.Common.{
  ℕ, suc, Bool, true, false, ℤ, pos, negsuc, ◌+ℤ◌, ◌-ℤ◌, List, [], ◌∷◌, Error,
}
use voltdb_client_go.Word.{wrap, w64}
use voltdb_client_go.Wire.Value.{Value}
use voltdb_client_go.Invocation.{
  ProcedureInvocation, new_sync_procedure_invocation, new_async_procedure_invocation,
}
use voltdb_client_go.Response.{
  VoltResponseInfo, VoltError, VoltRows, VoltResult, connection_timeout,
}
use voltdb_client_go.Node.State.{Answer, error, rows, result}
pub mod Statement
pub mod Handles
pub mod Answers
mod Tests

-- The two counters of handles, which are global; the channels that have been made, which are
-- numbered; and what has been sent on inPiCh, the newest first.
pub record Conn : Type 0 where
  pub handle : ℤ
  pub s_handle : ℤ
  pub channels : ℕ
  pub in_pi_ch : List ProcedureInvocation

-- two minutes in nanoseconds
abbrev pub default_query_timeout : ℤ
default_query_timeout = pos 120000000000

unfoldable pub get_next_handle : Conn → ℤ × Conn
get_next_handle c = let h = wrap w64 (c.handle +ℤ pos 1) in (h, record c { handle = h })

unfoldable pub get_next_system_handle : Conn → ℤ × Conn
get_next_system_handle c = let h = wrap w64 (c.s_handle -ℤ pos 1) in (h, record c { s_handle = h })

unfoldable pub send : ProcedureInvocation → Conn → Conn
send pi c = record c { in_pi_ch = pi ∷ c.in_pi_ch }

-- A synchronous call up to its select: the channel that it waits for.
unfoldable pub start : Bool → List ℕ → List Value → ℤ → Conn → ℕ × Conn
unfolding get_next_handle send new_sync_procedure_invocation
start is_query query args timeout c =
    let ch = c.channels in
    let numbered = get_next_handle (record c { channels = suc ch }) in
    (ch, send (new_sync_procedure_invocation numbered.0 is_query query args ch timeout) numbered.1)

unfoldable pub start_async : Bool → ℕ → List ℕ → List Value → ℤ → Conn → Conn
unfolding get_next_handle send new_async_procedure_invocation
start_async is_query consumer query args timeout c =
    let numbered = get_next_handle c in
    send (new_async_procedure_invocation numbered.0 is_query query args timeout consumer) numbered.1

unfoldable pub exec_timeout : List ℕ → List Value → ℤ → Conn → ℕ × Conn
unfolding start
exec_timeout = start false

unfoldable pub query_timeout : List ℕ → List Value → ℤ → Conn → ℕ × Conn
unfolding start
query_timeout = start true

unfoldable pub exec : List ℕ → List Value → Conn → ℕ × Conn
unfolding exec_timeout
exec query args = exec_timeout query args default_query_timeout

unfoldable pub query : List ℕ → List Value → Conn → ℕ × Conn
unfolding query_timeout
query text args = query_timeout text args default_query_timeout

unfoldable pub exec_async_timeout : ℕ → List ℕ → List Value → ℤ → Conn → Conn
unfolding start_async
exec_async_timeout = start_async false

unfoldable pub query_async_timeout : ℕ → List ℕ → List Value → ℤ → Conn → Conn
unfolding start_async
query_async_timeout = start_async true

unfoldable pub exec_async : ℕ → List ℕ → List Value → Conn → Conn
unfolding exec_async_timeout
exec_async consumer query args = exec_async_timeout consumer query args default_query_timeout

unfoldable pub query_async : ℕ → List ℕ → List Value → Conn → Conn
unfolding query_async_timeout
query_async consumer query args = query_async_timeout consumer query args default_query_timeout

-- What the select of a synchronous call receives.
pub data Wakeup : Type 0 where
  response : Answer → Wakeup
  timer : Wakeup

-- How the call ends.
pub data Ending (A : Type 0) : Type 0 where
  returned : A → Ending A
  failed : VoltError → Ending A
  panicked : Ending A  -- panic("unexpected response type")

unfoldable pub timeout_error : VoltError
timeout_error = record {
  volt_response = record {
    handle = pos 0;
    status = connection_timeout;
    status_string = [];
    app_status = pos 0;
    app_status_string = [];
    cluster_round_trip_time = negsuc 0;
    num_tables = pos 0;
  };
  error = Error.timeout;
}

unfoldable pub exec_ending : Wakeup → Ending VoltResult
unfolding timeout_error
exec_ending (response (result r)) = returned r
exec_ending (response (error e)) = failed e
exec_ending (response (rows r)) = panicked
exec_ending timer = failed timeout_error

unfoldable pub query_ending : Wakeup → Ending VoltRows
unfolding timeout_error
query_ending (response (rows r)) = returned r
query_ending (response (error e)) = failed e
query_ending (response (result r)) = panicked
query_ending timer = failed timeout_error
