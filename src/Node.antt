-- ===== src/Node.antt =====
-- The connection to one node of the cluster (voltdbclient/node_conn.go, network_request.go): the
-- goroutine `loop` as a function of its state and of what its select receives. A channel or a
-- consumer is known by a number.
pub mod State
pub mod Setup
pub mod Handlers
pub mod Step
pub mod Requests
pub mod Balance
pub mod Completion
pub mod Runs
pub mod Routing
pub mod Pressure
pub mod Honesty
pub mod Listen
pub mod Connect
pub mod Handshake
pub mod Lifecycle
pub mod Wiring
pub mod Held
pub mod Replies
pub mod Idle
mod Tests
