-- ===== src/Distributor/Conn.antt =====
-- A connection as its caller holds it (Conn and its methods of voltdbclient/distributor.go). A
-- channel is a number; making one takes the next.
use voltdb_client_go.Common.{
  ℕ, suc, ◌+◌, ◌==◌, ◌≡◌, arith, if◌then◌else◌, Bool, true, false, not, Option, none, some, List,
  [], ◌∷◌, ◌++◌,
}
use voltdb_client_go.Distributor.Loop.{Event}

pub record Conn : Type 0 where
  pub in_pi_ch : ℕ
  pub all_ncs_pi_ch : ℕ
  pub close_ch : ℕ
  pub is_open : Bool
  pub drain_ch : ℕ
  pub use_client_affinity : Bool
  pub send_reads_to_replicas_byt_default_if_ca_enabled : Bool

-- newConn up to `start`, without the limiter: the connection and the number of channels.
unfoldable pub new_conn : ℕ → Conn × ℕ
new_conn channels = (
  record {
    in_pi_ch = channels;
    all_ncs_pi_ch = channels + 1;
    close_ch = channels + 2;
    is_open = true;
    drain_ch = channels + 3;
    use_client_affinity = true;
    send_reads_to_replicas_byt_default_if_ca_enabled = false;
  },
  channels + 4,
)

-- A send on a channel, after which `close` and `drain` wait for an answer.
pub data Message : Type 0 where
  answer_to : ℕ → ℕ → Message

unfoldable pub close : Conn → ℕ → Message × ℕ
close c channels = (answer_to c.close_ch channels, suc channels)

unfoldable pub drain : Conn → ℕ → Message × ℕ
drain c channels = (answer_to c.drain_ch channels, suc channels)

-- `none` is a panic.
unfoldable pub assert_open : Conn → Option Conn
assert_open c = if not c.is_open then none else some c

unfoldable pub is_closed : Conn → Bool
is_closed c = not c.is_open

unfoldable pub set_closed : Conn → Conn
set_closed c = record c { is_open = false }

-- What the select of the loop receives of a message.
unfoldable pub received_by : Conn → Message → List Event
received_by c (answer_to ch resp_ch) =
    (if ch == c.close_ch then Event.close resp_ch ∷ [] else [])
    ++ (if ch == c.drain_ch then Event.drain resp_ch ∷ [] else [])

-- The loop of a new connection receives a call of Close, and one of Drain, as that and as nothing
-- else, with the channel for which the caller waits.
pub conn_calls_arrive :
    (channels later : ℕ)
    → let c : Conn = (new_conn channels).0 in
      (received_by c ((close c later).0) ≡ Event.close later ∷ [])
      × (received_by c ((drain c later).0) ≡ Event.drain later ∷ [])
unfolding received_by close drain new_conn
conn_calls_arrive channels later = (ground arith, ground arith)
