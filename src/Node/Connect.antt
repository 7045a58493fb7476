-- ===== src/Node/Connect.antt =====
-- The login of a node connection (networkConnect of voltdbclient/node_conn.go). The parameters are
-- url.Parse, net.ResolveTCPAddr and net.DialTCP: a peer takes the bytes of one write, or fails on
-- them, and what it sends then is read from the connection.
use voltdb_client_go.Common.{ℕ, ℤ, Option, none, some, List, [], Outcome, ok, err, panic}
use voltdb_client_go.Wire.Encoder
use voltdb_client_go.Wire.Encoder.{new_encoder}
use voltdb_client_go.Wire.Source.{Source}
use voltdb_client_go.Wire.Decoder
use voltdb_client_go.Wire.Decoder.{ConnInfo}
use voltdb_client_go.Url.{Url, parse_url}

-- Where it fails.
pub data Failure : Type 0 where
  bad_url unresolved undialed unserialized unwritten refused : Failure

-- The connection is what has not been read of it yet.
pub data Connection : Type 0 where
  connected : Source → ConnInfo → Connection
  disconnected : Failure → Connection
  crashed : Connection

abbrev pub Peer : Type 0
Peer = List ℕ → Option Source

-- `nc.decoder.Login()`
unfoldable pub greeted : Outcome Source ConnInfo → Connection
greeted (ok info s) = connected s info
greeted (err e s) = disconnected refused
greeted panic = crashed

-- `tcpConn.Write(login)`
unfoldable pub written : Option Source → Connection
unfolding greeted
written none = disconnected unwritten
written (some s) = greeted (Decoder.login s)

unfoldable pub serialized : {E : Type 0} → Peer → Outcome E (List ℕ) → Connection
unfolding written
serialized peer (ok login e) = written (peer login)
serialized peer (err x e) = disconnected unserialized
serialized peer panic = crashed

unfoldable pub username : Url → List ℕ
username u = elim u.user [ none ↦ [] | some i ↦ i.username ]

unfoldable pub password : Url → List ℕ
password u = elim u.user [ none ↦ [] | some i ↦ i.password ]

module _ (sha1 sha256 : List ℕ → List ℕ) where
  unfoldable pub dialed : ℤ → Url → Option Peer → Connection
  unfolding serialized username password new_encoder
  dialed version u none = disconnected undialed
  dialed version u (some peer) =
      serialized peer (Encoder.login sha1 sha256 version (username u) (password u) new_encoder)

  module _ {A : Type 0} (parse : List ℕ → Option Url) (resolve : List ℕ → Option A)
      (dial : A → Option Peer) where
    unfoldable pub resolved : ℤ → Url → Option A → Connection
    unfolding dialed
    resolved version u none = disconnected unresolved
    resolved version u (some a) = dialed version u (dial a)

    unfoldable pub parsed : ℤ → Option Url → Connection
    unfolding resolved
    parsed version none = disconnected bad_url
    parsed version (some u) = resolved version u (resolve u.host)

    unfoldable pub network_connect : ℤ → List ℕ → Connection
    unfolding parsed parse_url
    network_connect version conn_info = parsed version (parse_url parse conn_info)
