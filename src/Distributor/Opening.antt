-- ===== src/Distributor/Opening.antt =====
-- Opening a connection (OpenConn and its variants, newConn and start of
-- voltdbclient/distributor.go). `connect` is the login at one connection string, after which the
-- goroutines of the node run. A node is known by the position of its string.
use voltdb_client_go.Common.{
  ℕ, suc, ◌==◌, ◌≡◌, ◌⊎◌, inl, inr, ◌≢◌, refl, sym, ap, append-nil, append_assoc, ◌∙◌,
  if◌then◌else◌, ℤ, Option, none, some, List, [], ◌∷◌, ◌++◌, All,
}
use voltdb_client_go.Node.Connect.{Connection, Failure, connected, disconnected, crashed}
use voltdb_client_go.Wire.Source.{Source}
use voltdb_client_go.Wire.Decoder.{ConnInfo}
use voltdb_client_go.Limiter.{LatencyLimiter, new_latency_limiter}
use voltdb_client_go.Limiter.Semaphore.{
  TxnLimiter, new_txn_limiter, new_txn_limiter_with_max_out_txns,
}
use voltdb_client_go.Distributor.State.{Loop, initial}

-- strings.Split at a byte
unfoldable pub prepend : ℕ → List (List ℕ) → List (List ℕ)
prepend b [] = (b ∷ []) ∷ []
prepend b (x ∷ xs) = (b ∷ x) ∷ xs

unfoldable pub split : ℕ → List ℕ → List (List ℕ)
unfolding prepend
split c [] = [] ∷ []
split c (b ∷ bs) = let rest = split c bs in if b == c then [] ∷ rest else prepend b rest

-- The lists and the map that start fills, the newest entry first in the map.
pub record Nodes : Type 0 where
  pub connected_nodes : List ℕ
  pub disconnected_nodes : List ℕ
  pub host_id_to_connection : List (ℤ × ℕ)

-- A round of the loop of start; `none` is a panic.
unfoldable pub placed : ℕ → Connection → Nodes → Option Nodes
placed i (connected s info) n = some (record n {
  connected_nodes = n.connected_nodes ++ (i ∷ []);
  host_id_to_connection = (info.host_id, i) ∷ n.host_id_to_connection;
})
placed i (disconnected f) n =
    some (record n { disconnected_nodes = n.disconnected_nodes ++ (i ∷ []) })
placed i crashed n = none

-- The interface rateLimiter.
pub data RateLimiter : Type 0 where
  latency : LatencyLimiter → RateLimiter
  txns : TxnLimiter → RateLimiter

-- An open connection: the distributor's loop and the limiter.
pub data Opened : Type 0 where
  opened : Loop → RateLimiter → Opened
  no_connections : Opened
  opening_crashed : Opened

unfoldable pub looped : RateLimiter → List ℕ → Opened
looped rl [] = no_connections
looped rl (i ∷ is) = opened (initial (i ∷ is)) rl

unfoldable pub launched : RateLimiter → Option Nodes → Opened
unfolding looped
launched rl none = opening_crashed
launched rl (some n) = looped rl n.connected_nodes

connection_cases :
    (c : Connection)
    → ((s : Source) × (info : ConnInfo) × (c ≡ connected s info))
      ⊎ (((f : Failure) × (c ≡ disconnected f)) ⊎ (c ≡ crashed))
connection_cases (connected s info) = inl (s, info, refl)
connection_cases (disconnected f) = inr (inl (f, refl))
connection_cases crashed = inr (inr refl)

abbrev pub joining : ℕ → Connection → List ℕ → List ℕ
joining i (connected s info) later = i ∷ later
joining i (disconnected f) later = later
joining i crashed later = later

module _ (connect : List ℕ → Connection) where
  unfoldable pub connect_all : ℕ → List (List ℕ) → Nodes → Option Nodes
  unfolding placed
  connect_all i [] n = some n
  connect_all i (ci ∷ cis) n = elim (placed i (connect ci) n) [
    | none ↦ none
    | some m ↦ connect_all (suc i) cis m
  ]

  unfoldable pub start : RateLimiter → List (List ℕ) → Opened
  unfolding connect_all launched
  start rl cis = launched rl (
      connect_all 0 cis
        (record { connected_nodes = []; disconnected_nodes = []; host_id_to_connection = [] }))

  unfoldable pub open_conn : List ℕ → Opened
  unfolding start split new_txn_limiter
  open_conn ci = start (RateLimiter.txns new_txn_limiter) (split b',' ci)

  unfoldable pub open_conn_with_latency_target : ℕ → List ℕ → ℤ → Opened
  unfolding start split
  open_conn_with_latency_target now ci target =
      start (RateLimiter.latency (new_latency_limiter now target)) (split b',' ci)

  unfoldable pub open_conn_with_max_outstanding_txns : List ℕ → ℕ → Opened
  unfolding start split
  open_conn_with_max_outstanding_txns ci max_out_txns =
      start (RateLimiter.txns (new_txn_limiter_with_max_out_txns max_out_txns)) (split b',' ci)

  -- The positions whose connection strings lead to a node, from `i` on.
  abbrev pub joined : ℕ → List (List ℕ) → List ℕ
  joined i [] = []
  joined i (ci ∷ cis) = joining i (connect ci) (joined (suc i) cis)

  Joins : ℕ → List (List ℕ) → Nodes → Type 0
  unfolding connect_all
  Joins i cis n =
      (m : Nodes) × (connect_all i cis n ≡ some m)
      × (m.connected_nodes ≡ n.connected_nodes ++ joined i cis)

  connect_all-Joins :
      (i : ℕ) (cis : List (List ℕ)) (n : Nodes)
      → All (λ ci. connect ci ≢ crashed) cis
      → Joins i cis n
  unfolding Joins connect_all placed
  connect_all-Joins i [] n h = (n, refl, sym (append-nil n.connected_nodes))
  connect_all-Joins i (ci ∷ cis) n (c, h) =
      let later : List ℕ = joined (suc i) cis in
      let go : Option Nodes → Option Nodes =
        λ o. elim o [ none ↦ none | some x ↦ connect_all (suc i) cis x ] in
      elim (connection_cases (connect ci)) [
        | inl (s, info, e) ↦
            (let next : Nodes = record n {
              connected_nodes = n.connected_nodes ++ (i ∷ []);
              host_id_to_connection = (info.host_id, i) ∷ n.host_id_to_connection;
            } in
              let (m, run, nodes) = connect_all-Joins (suc i) cis next h in
              (
                m,
                ap (λ o. go (placed i o n)) e ∙ run,
                nodes
                    ∙ append_assoc n.connected_nodes (i ∷ []) later
                    ∙ ap (λ o. n.connected_nodes ++ joining i o later) (sym e),
              ))
        | inr (inl (f, e)) ↦
            (let next : Nodes = record n {
              disconnected_nodes = n.disconnected_nodes ++ (i ∷ []);
            } in
              let (m, run, nodes) = connect_all-Joins (suc i) cis next h in
              (
                m,
                ap (λ o. go (placed i o n)) e ∙ run,
                nodes ∙ ap (λ o. n.connected_nodes ++ joining i o later) (sym e),
              ))
        | inr (inr e) ↦ absurd (c e)
      ]

  -- When no login panics, the loop starts with the nodes whose logins were accepted, in the order of
  -- the connection strings; without any there is no connection.
  pub start-joined :
      (rl : RateLimiter) (cis : List (List ℕ))
      → All (λ ci. connect ci ≢ crashed) cis
      → start rl cis ≡ looped rl (joined 0 cis)
  unfolding start launched Joins
  start-joined rl cis h =
      let none_yet : Nodes = record {
        connected_nodes = [];
        disconnected_nodes = [];
        host_id_to_connection = [];
      } in
      let (m, run, nodes) = connect_all-Joins 0 cis none_yet h in
      ap (launched rl) run ∙ ap (looped rl) nodes
