-- ===== src/Node/Wiring/Tests.antt =====
-- The theorem on the methods of a node connection at a concrete one (voltdbclient/node_conn.go).
use voltdb_client_go.Common.{true, false, none, pos, negsuc, some, [], ◌∷◌}
use voltdb_client_go.Wire.Source.{Source, buffer}
use voltdb_client_go.Wire.Decoder.{ConnInfo}
use voltdb_client_go.Invocation.{ProcedureInvocation}
use voltdb_client_go.Node.Lifecycle.{NodeConn, listen, loop, World}

abbrev ping : ProcedureInvocation
ping = record {
  handle = pos 7;
  is_query = true;
  query = b'P' ∷ [];
  params = [];
  response_ch = some 1;
  timeout = pos 1000;
  arc = none;
  async = false;
  slen = negsuc 0;
}

abbrev server : ConnInfo
server = record {
  host_id = pos 0;
  connection = pos 3;
  cluster_start = pos 1;
  leader_value = pos 2;
  leader_ip = [];
  build = [];
}

-- Channel 0 is that of all nodes, channel 1 that of this node's invocations.
abbrev before : World
before = record { channels = 2; goroutines = [] }

abbrev one : NodeConn
one = record {
  conn_info = [];
  conn_data = some server;
  tcp_conn = some (buffer []);
  drain_ch = 6;
  bp_ch = 2;
  close_ch = 3;
  nc_pi_ch = 1;
}

abbrev one_world : World
one_world = record {
  channels = 7;
  goroutines = loop (buffer []) 0 5 2 6 3 1 ∷ listen (buffer []) 5 ∷ [];
}

-- The second try succeeds, and the loop is started again.
abbrev two : NodeConn
two = record one { tcp_conn = some (buffer (1 ∷ [])) }

abbrev two_world : World
two_world = record {
  channels = 8;
  goroutines =
      loop (buffer (1 ∷ [])) 0 7 2 6 3 1
      ∷ listen (buffer (1 ∷ [])) 7
      ∷ loop (buffer []) 0 5 2 6 3 1
      ∷ listen (buffer []) 5
      ∷ [];
}
