-- ===== src/Node/Lifecycle.antt =====
-- A node connection as its owner sees it (nodeConn and its methods of voltdbclient/node_conn.go):
-- the goroutines that connect and reconnect start, and what the other methods send them. A channel is
-- a number; making one takes the next.
use voltdb_client_go.Common.{
  ℕ, suc, ◌+◌, ◌==◌, if◌then◌else◌, Bool, not, ◌&&◌, Option, none, some, List, [], ◌∷◌, ◌++◌,
}
use voltdb_client_go.Wire.Source.{Source}
use voltdb_client_go.Wire.Decoder.{ConnInfo}
use voltdb_client_go.Invocation.{ProcedureInvocation}
use voltdb_client_go.Node.Connect.{Connection, Failure, connected, disconnected, crashed}
use voltdb_client_go.Node.Step.{Event}

pub record NodeConn : Type 0 where
  pub conn_info : List ℕ
  pub conn_data : Option ConnInfo
  pub tcp_conn : Option Source
  pub drain_ch : ℕ
  pub bp_ch : ℕ
  pub close_ch : ℕ
  pub nc_pi_ch : ℕ

-- The arguments of `go nc.listen(...)` and of `go nc.loop(...)`; the loop reads nc.closeCh and
-- nc.ncPiCh too.
pub data Goroutine : Type 0 where
  listen : Source → ℕ → Goroutine
  loop : (writer : Source) (pi_ch response_ch bp_ch drain_ch close_ch nc_pi_ch : ℕ) → Goroutine

-- The channels made so far and the goroutines started, the newest first.
pub record World : Type 0 where
  pub channels : ℕ
  pub goroutines : List Goroutine

unfoldable pub new_node_conn : List ℕ → ℕ → World → NodeConn × World
new_node_conn ci nc_pi_ch w = (
  record {
    conn_info = ci;
    conn_data = none;
    tcp_conn = none;
    drain_ch = w.channels + 2;
    bp_ch = w.channels;
    close_ch = w.channels + 1;
    nc_pi_ch = nc_pi_ch;
  },
  record w { channels = w.channels + 3 },
)

-- The listener and the loop on a new response channel.
unfoldable pub launch : ℕ → Source → ℕ → NodeConn → World → World
launch pi_ch s response_ch nc w = record w {
  goroutines =
      loop s pi_ch response_ch nc.bp_ch nc.drain_ch nc.close_ch nc.nc_pi_ch
      ∷ (listen s response_ch ∷ w.goroutines);
}

pub data Result : Type 0 where
  connection : NodeConn → World → Result
  failure : Failure → Result
  panicked : Result

-- `connect`, with what networkConnect returns. The drain channel is made anew.
unfoldable pub connect : ℕ → Connection → NodeConn → World → Result
unfolding launch
connect pi_ch (connected s info) nc w =
    let nc' : NodeConn = record nc {
      conn_data = some info;
      tcp_conn = some s;
      drain_ch = w.channels + 1;
    } in
    connection nc' (launch pi_ch s w.channels nc' (record w { channels = w.channels + 2 }))
connect pi_ch (disconnected f) nc w = failure f
connect pi_ch crashed nc w = panicked

-- `reconnect`, with what networkConnect returns each time. It tries again after 5 seconds, of which
-- it counts the times; `waiting` is that no try of these was the last.
pub data Retried : Type 0 where
  back : ℕ → NodeConn → World → Retried
  waiting : Retried
  retry_panicked : Retried

unfoldable pub slept : Retried → Retried
slept (back n nc w) = back (suc n) nc w
slept waiting = waiting
slept retry_panicked = retry_panicked

unfoldable pub reconnect : ℕ → List Connection → NodeConn → World → Retried
unfolding launch slept
reconnect pi_ch [] nc w = waiting
reconnect pi_ch (connected s info ∷ tries) nc w =
    let nc' : NodeConn = record nc { conn_data = some info; tcp_conn = some s } in
    back 0 nc' (launch pi_ch s w.channels nc' (record w { channels = w.channels + 1 }))
reconnect pi_ch (disconnected f ∷ tries) nc w = slept (reconnect pi_ch tries nc w)
reconnect pi_ch (crashed ∷ tries) nc w = retry_panicked

-- A send on a channel.
pub data Message : Type 0 where
  invocation : ℕ → ProcedureInvocation → Message
  answer_to : ℕ → ℕ → Message  -- a channel for the answer

unfoldable pub submit : ProcedureInvocation → NodeConn → Message
submit pi nc = invocation nc.nc_pi_ch pi

-- `close` and `hasBP` make the channel that they wait for.
unfoldable pub close : NodeConn → World → Message × World
close nc w = (answer_to nc.close_ch w.channels, record w { channels = suc w.channels })

unfoldable pub has_bp : NodeConn → World → Message × World
has_bp nc w = (answer_to nc.bp_ch w.channels, record w { channels = suc w.channels })

unfoldable pub drain : ℕ → NodeConn → Message
drain resp_ch nc = answer_to nc.drain_ch resp_ch

-- What the select of a goroutine receives of a message if it is the one to take it: goroutines that
-- read the same channel compete. `pressed` is that the loop is under back pressure, in which it does
-- not read the channel of the node's own invocations. A select with several channels that are one
-- would choose.
unfoldable pub received_by : Bool → Goroutine → Message → List Event
received_by pressed (listen s ch) m = []
received_by pressed (loop s pi_ch response_ch bp_ch drain_ch close_ch nc_pi_ch) (invocation ch pi) =
    (if ch == nc_pi_ch && not pressed then Event.invoke_nc pi ∷ [] else [])
    ++ (if ch == pi_ch then Event.invoke pi ∷ [] else [])
received_by pressed (loop s pi_ch response_ch bp_ch drain_ch close_ch nc_pi_ch)
      (answer_to ch resp_ch) =
    (if ch == close_ch then Event.close resp_ch ∷ [] else [])
    ++ ((if ch == bp_ch then Event.ask_pressure resp_ch ∷ [] else [])
        ++ (if ch == drain_ch then Event.drain resp_ch ∷ [] else []))
