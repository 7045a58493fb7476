-- ===== src/Distributor.antt =====
-- The goroutine that hands invocations to the nodes, drains and closes them
-- (voltdbclient/distributor.go, getConnByCA of voltdbclient/client_affinity.go).
pub mod Affinity
pub mod Topology
pub mod Unrouted
pub mod Partitions
pub mod State
pub mod Opening
pub mod Loop
pub mod Conn
pub mod Routing
pub mod Desk
pub mod Service
pub mod Drain
pub mod Waits
pub mod Answering
pub mod Early
pub mod Closing
pub mod Ending
mod Tests
