-- ===== src/Node/State.antt =====
-- The state of the goroutine `loop` (voltdbclient/node_conn.go) and its requests
-- (voltdbclient/network_request.go). What the loop sends on channels, hands to consumers or writes
-- to the socket is a list of effects, the newest first.
use voltdb_client_go.Common.{
  ℕ, if◌then◌else◌, Bool, true, false, ℤ, pos, eqb_ℤ, Option, none, some, List, [], ◌∷◌,
}
use voltdb_client_go.Response.{VoltError, VoltRows, VoltResult}

pub record NetworkRequest : Type 0 where
  pub handle : ℤ
  pub query : Bool
  pub ch : Option ℕ
  pub sync : Bool
  pub arc : Option ℕ
  pub num_bytes : ℤ
  pub timeout : ℤ
  pub submitted : ℤ

unfoldable pub new_sync_request : ℤ → Option ℕ → Bool → ℤ → ℤ → ℤ → NetworkRequest
new_sync_request handle ch is_query num_bytes limit submitted = record {
  handle = handle;
  query = is_query;
  ch = ch;
  sync = true;
  arc = none;
  num_bytes = num_bytes;
  timeout = limit;
  submitted = submitted;
}

unfoldable pub new_async_request : ℤ → Option ℕ → Bool → Option ℕ → ℤ → ℤ → ℤ → NetworkRequest
new_async_request handle ch is_query arc num_bytes limit submitted = record {
  handle = handle;
  query = is_query;
  ch = ch;
  sync = false;
  arc = arc;
  num_bytes = num_bytes;
  timeout = limit;
  submitted = submitted;
}

-- What a waiting caller or a consumer is given.
pub data Answer : Type 0 where
  error : VoltError → Answer
  rows : VoltRows → Answer
  result : VoltResult → Answer

pub data Effect : Type 0 where
  wrote : List ℕ → Effect  -- writer.Write
  replied : Option ℕ → Answer → Effect  -- a send on the response channel of a request
  consumed : ℕ → Answer → Effect  -- a call of a ConsumeX method
  drained : Option ℕ → Effect  -- drainRespCh <- true
  pressure : ℕ → Bool → Effect  -- respBPCh <- bp
  closed : ℕ → Effect  -- respCh <- true, after the socket is closed

-- The mutable state of `loop`. `nc_pi_open` says that ncPiCh is not nil.
pub record Loop : Type 0 where
  pub requests : List NetworkRequest
  pub nc_pi_open : Bool
  pub draining : Bool
  pub drain_resp_ch : Option ℕ
  pub queued_bytes : ℤ
  pub bp : Bool
  pub ping_sent_time : ℤ
  pub ping_outstanding : Bool
  pub effects : List Effect

-- The loop goes on, has returned, or has brought the process down by a panic.
pub data Next : Type 0 where
  running : Loop → Next
  stopped : Loop → Next
  crashed : Next

unfoldable pub continue : Next → (Loop → Next) → Next
continue (running l) k = k l
continue (stopped l) k = stopped l
continue crashed k = crashed

-- The map from handles to requests.
unfoldable pub find_request : ℤ → List NetworkRequest → Option NetworkRequest
find_request h [] = none
find_request h (r ∷ rs) = if eqb_ℤ r.handle h then some r else find_request h rs

unfoldable pub delete_request : ℤ → List NetworkRequest → List NetworkRequest
delete_request h [] = []
delete_request h (r ∷ rs) =
    let rest = delete_request h rs in if eqb_ℤ r.handle h then rest else r ∷ rest

unfoldable pub put_request : NetworkRequest → List NetworkRequest → List NetworkRequest
unfolding delete_request
put_request r rs = r ∷ delete_request r.handle rs

-- start back pressure when this many bytes are queued for write
abbrev pub max_queued_bytes : ℤ
max_queued_bytes = pos 262144

-- math.MaxInt64
abbrev pub ping_handle : ℤ
ping_handle = pos 9223372036854775807

-- a third of pingTimeout, in nanoseconds
abbrev pub ping_interval : ℤ
ping_interval = pos 40000000000

unfoldable pub emit : Effect → Loop → Loop
emit x l = record l { effects = x ∷ l.effects }

unfoldable pub initial : ℤ → Loop
initial now = record {
  requests = [];
  nc_pi_open = true;
  draining = false;
  drain_resp_ch = none;
  queued_bytes = pos 0;
  bp = false;
  ping_sent_time = now;
  ping_outstanding = false;
  effects = [];
}
