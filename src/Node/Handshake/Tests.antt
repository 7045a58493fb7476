-- ===== src/Node/Handshake/Tests.antt =====
-- The theorem about the login at a concrete server (voltdbclient/node_conn.go).
use voltdb_client_go.Common.{
  ℕ, ◌≡◌, refl, arith, inl, inr, pos, negsuc, Option, some, List, [], ◌∷◌, length,
}
use voltdb_client_go.Wire.Source.{conn}
use voltdb_client_go.Wire.Decoder.Login.{Greeting, IsGreeting, greeting_format, info_of}
use voltdb_client_go.Url.{Url, Userinfo}
use voltdb_client_go.Node.Connect.{connected, Peer, network_connect}
use voltdb_client_go.Node.Handshake.{url_of, network_connect-accepted}

abbrev ann : Userinfo
ann = record { username = b'a' ∷ []; password = b'p' ∷ [] }

abbrev hash : List ℕ → List ℕ
hash b = 1 ∷ b

abbrev local : List ℕ
local = b'd' ∷ b'b' ∷ []

abbrev parse : List ℕ → Option Url
parse src = some (url_of [] ann local)

abbrev resolve : List ℕ → Option ℕ
resolve host = some (length host)

abbrev greeting : Greeting
greeting = record {
  version = pos 1;
  host_id = pos 3;
  connection = pos 9;
  start_micros = pos 1000;
  leader = negsuc 5;
  build_first = b'v';
  build_rest = b'7' ∷ [];
}

greeting-IsGreeting : IsGreeting greeting
greeting-IsGreeting = record {
  version_fits = omega arith;
  host_fits = omega arith;
  connection_fits = omega arith;
  start_fits = omega arith;
  leader_fits = omega arith;
  build_fits = omega arith;
}

abbrev body : List ℕ
body = greeting_format (pos 0) greeting

-- The server sends its answer in one segment, and another one behind it.
abbrev peer : Peer
peer login = some (conn ((0 ∷ 0 ∷ 0 ∷ 32 ∷ body) ∷ (5 ∷ []) ∷ []))

abbrev dial : ℕ → Option Peer
dial a = some peer

network_connect-accepted_example :
    network_connect hash hash parse resolve dial (pos 1) local
    ≡ connected (conn ((5 ∷ []) ∷ [])) (info_of greeting)
network_connect-accepted_example =
    network_connect-accepted hash hash parse resolve dial (pos 1) local [] local ann 8 peer greeting
      body ((5 ∷ []) ∷ []) ((5 ∷ []) ∷ []) refl (refl, (refl, tt)) refl refl refl
      greeting-IsGreeting (inr ([], refl, inl (5, [], refl, refl)))
