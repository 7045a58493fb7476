-- ===== src/Node/Wiring.antt =====
-- The channels of a node connection and those of its goroutines (voltdbclient/node_conn.go).
use voltdb_client_go.Common.{
  ℕ, suc, ◌+◌, ◌<◌, ◌==◌, ◌≡◌, refl, ap, ◌∙◌, sym, if◌then◌else◌, Bool, false, Option, none, some,
  List, [], ◌∷◌, ◌++◌, map, length, ==_refl, All,
}
use voltdb_client_go.Wire.Source.{Source}
use voltdb_client_go.Wire.Decoder.{ConnInfo}
use voltdb_client_go.Invocation.{ProcedureInvocation}
use voltdb_client_go.Node.Connect.{Connection, Failure, connected, disconnected, crashed}
use voltdb_client_go.Node.Step.{Event}
use voltdb_client_go.Node.Lifecycle.{
  NodeConn, Goroutine, listen, loop, World, new_node_conn, Result, connection, connect, Retried,
  back, slept, reconnect, Message, submit, close, has_bp, drain, received_by,
}
mod Tests

-- A listener, or a loop on the channels of the connection.
abbrev pub IsOwn : ℕ → NodeConn → Goroutine → Type 0
IsOwn pi_ch nc (listen s response_ch) = Unit {0}
IsOwn pi_ch nc (loop s pi response_ch bp drain_ch close_ch nc_pi) =
    (pi ≡ pi_ch)
    × (bp ≡ nc.bp_ch)
    × (drain_ch ≡ nc.drain_ch)
    × (close_ch ≡ nc.close_ch)
    × (nc_pi ≡ nc.nc_pi_ch)

-- What the connection has started: the newest loop, on the socket and the answers of the newest
-- listener, this listener, and older ones, in front of what was there before.
abbrev pub IsWired : ℕ → NodeConn → World → Type 0
IsWired pi_ch nc w =
    (s : Source) × (response_ch : ℕ) × (older before : List Goroutine) × (nc.tcp_conn ≡ some s)
    × (w.goroutines
        ≡ (loop s pi_ch response_ch nc.bp_ch nc.drain_ch nc.close_ch nc.nc_pi_ch
            ∷ (listen s response_ch ∷ older))
          ++ before)
    × All (IsOwn pi_ch nc) older

-- The channels of a connection have been made, and are three besides that for its invocations and
-- that for all.
pub record IsSeparate (pi_ch : ℕ) (nc : NodeConn) (w : World) : Type 0 where
  pub pi_ch_lt : pi_ch < w.channels
  pub nc_pi_ch_lt : nc.nc_pi_ch < w.channels
  pub bp_ch_lt : nc.bp_ch < w.channels
  pub close_ch_lt : nc.close_ch < w.channels
  pub drain_ch_lt : nc.drain_ch < w.channels
  pub pi-nc_pi : nc.nc_pi_ch == pi_ch ≡ false
  pub bp-close : nc.bp_ch == nc.close_ch ≡ false
  pub bp-drain : nc.bp_ch == nc.drain_ch ≡ false
  pub close-drain : nc.close_ch == nc.drain_ch ≡ false

-- `connect` after newNodeConn, with any number of calls of `reconnect` behind it.
abbrev pub Connects : ℕ → Result → Type 0
Connects pi_ch (connection nc w) = IsSeparate pi_ch nc w × IsWired pi_ch nc w
Connects pi_ch _ = Unit {0}

abbrev pub Returns : ℕ → Retried → Type 0
Returns pi_ch (back n nc w) = IsSeparate pi_ch nc w × IsWired pi_ch nc w
Returns pi_ch _ = Unit {0}

-- The connections that the code can come to: made and connected, connected again, and asked.
pub data Lives (pi_ch : ℕ) : NodeConn → World → Type 0 where
  first :
      (ci : List ℕ) (nc_pi_ch : ℕ) (v : World) (c : Connection) (nc : NodeConn) (w : World)
      → pi_ch < v.channels
      → nc_pi_ch < v.channels
      → nc_pi_ch == pi_ch ≡ false
      → connect pi_ch c (new_node_conn ci nc_pi_ch v).0 (new_node_conn ci nc_pi_ch v).1
        ≡ connection nc w
      → Lives pi_ch nc w
  again :
      {nc : NodeConn} {w : World} (tries : List Connection) (n : ℕ) (nc' : NodeConn) (w' : World)
      → Lives pi_ch nc w
      → reconnect pi_ch tries nc w ≡ back n nc' w'
      → Lives pi_ch nc' w'
  asked : {nc : NodeConn} {w : World} → Lives pi_ch nc w → Lives pi_ch nc (has_bp nc w).1

-- A listener receives none of the calls. A loop receives each as its event, and as nothing else; an
-- invocation only without back pressure.
abbrev pub Hears : Bool → Goroutine → NodeConn → World → ProcedureInvocation → ℕ → Type 0
Hears pressed (listen s response_ch) nc w pi resp_ch =
    (received_by pressed (listen s response_ch) (submit pi nc) ≡ [])
    × (received_by pressed (listen s response_ch) (drain resp_ch nc) ≡ [])
    × (received_by pressed (listen s response_ch) (close nc w).0 ≡ [])
    × (received_by pressed (listen s response_ch) (has_bp nc w).0 ≡ [])
Hears pressed g nc w pi resp_ch =
    (received_by pressed g (submit pi nc) ≡ (if pressed then [] else Event.invoke_nc pi ∷ []))
    × (received_by pressed g (drain resp_ch nc) ≡ Event.drain resp_ch ∷ [])
    × (received_by pressed g (close nc w).0 ≡ Event.close w.channels ∷ [])
    × (received_by pressed g (has_bp nc w).0 ≡ Event.ask_pressure w.channels ∷ [])

slept-back :
    {n : ℕ} {nc : NodeConn} {w : World} {r : Retried}
    → r ≡ back n nc w
    → slept r ≡ back (suc n) nc w
unfolding slept
slept-back e = ap slept e

-- No connection is made.
abbrev pub AllFail : List Connection → Type 0
AllFail [] = Unit {0}
AllFail (disconnected f ∷ cs) = AllFail cs
AllFail (c ∷ cs) = ⊥

-- `reconnect` comes back with the first connection that is made: it has slept once for each try that
-- failed before.
pub reconnect_first :
    (pi_ch : ℕ) (failed : List Connection) (s : Source) (info : ConnInfo) (more : List Connection)
    (nc : NodeConn) (w : World)
    → AllFail failed
    → (nc' : NodeConn) × (w' : World) × (reconnect pi_ch (failed ++ (connected s info ∷ more)) nc w
        ≡ back (length failed) nc' w')
      × (nc'.conn_data ≡ some info)
      × (nc'.tcp_conn ≡ some s)
unfolding reconnect
reconnect_first pi_ch [] s info more nc w h = (_, _, refl, refl, refl)
reconnect_first pi_ch (disconnected f ∷ failed) s info more nc w h =
    let (nc', w', e, known, open_) = reconnect_first pi_ch failed s info more nc w h in
    (nc', w', slept-back e, known, open_)
reconnect_first pi_ch (connected t i ∷ failed) s info more nc w h = absurd h
reconnect_first pi_ch (crashed ∷ failed) s info more nc w h = absurd h
