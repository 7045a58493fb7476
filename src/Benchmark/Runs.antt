-- ===== src/Benchmark/Runs.antt =====
-- The loops of voltkv's goroutines (runGetPutSync and runGetPutAsync of
-- examples/voltkv/benchmark_runner.go) until the timeout: a list of rounds. A round is a get or a put,
-- as `rand.Float64() < getputratio` says, with its draws and, where the call waits, its answer.
use voltdb_client_go.Common.{
  ℕ, suc, Bool, true, false, ℤ, Option, none, some, List, [], ◌∷◌, length,
}
use voltdb_client_go.Response.{VoltRows}
use voltdb_client_go.Benchmark.Payload.{
  PayloadProcessor, Reader, Stored, generate_random_key_for_retrieval, generate_for_store,
}
use voltdb_client_go.Benchmark.KvStats.{
  Stats, add_uint64, Reply, got_rows, get_error, got_result, put_error, handle_reply,
}

-- What a get or a put comes back with; `none` is an error.
pub data Round : Type 0 where
  get : (key_draw : ℕ) → Option VoltRows → Round
  put : (key_draw size_draw : ℕ) → Bool → Round

unfoldable pub get_reply : Option VoltRows → Reply
get_reply none = get_error
get_reply (some rows) = got_rows rows

unfoldable pub put_reply : Bool → Reply
put_reply false = put_error
put_reply true = got_result

-- The count of the operations of this goroutine, the counters and the entropy bytes.
pub record Run : Type 0 where
  pub ops : ℕ
  pub stats : Stats
  pub entropy : Reader

unfoldable pub count_store : Stored → Stats → Stats
count_store v s = record s {
  full = record s.full {
    network_put_data = add_uint64 s.full.network_put_data (length v.store);
    raw_put_data = add_uint64 s.full.raw_put_data (length v.raw);
  };
}

-- `ops += handle...`, where the handler returns 1.
unfoldable pub replied : Reader → ℕ → Option Stats → Option Run
replied r ops none = none
replied r ops (some s) = some (record { ops = suc ops; stats = s; entropy = r })

unfoldable pub and_then : Option Run → (Run → Option Run) → Option Run
and_then none k = none
and_then (some x) k = k x

-- What runGetPutAsync sends.
pub data Call : Type 0 where
  select : List ℕ → Call
  upsert : List ℕ → List ℕ → Call

pub data Draw : Type 0 where
  get_draw : ℕ → Draw
  put_draw : ℕ → ℕ → Draw

-- A round of runGetPutAsync: the call, the counters and the entropy bytes.
pub record Sent (C : Type 0) : Type 0 where
  pub sent : C
  pub counts : Stats
  pub left : Reader

unfoldable pub then_send : Call → Option (Sent (List Call)) → Option (Sent (List Call))
then_send c none = none
then_send c (some x) = some (record { sent = c ∷ x.sent; counts = x.counts; left = x.left })

module _ (sprintf : ℤ → ℕ → List ℕ) (to_gzip from_gzip : List ℕ → List ℕ)
    (proc : PayloadProcessor) where
  unfoldable pub get_round : Option VoltRows → Run → Option (List ℕ) → Option Run
  unfolding get_reply replied
  get_round answer x none = none
  get_round answer x (some key) =
      replied x.entropy x.ops (handle_reply from_gzip proc (get_reply answer) x.stats)

  unfoldable pub put_round : Bool → Run → Option Stored → Option Run
  unfolding put_reply replied count_store
  put_round answer x none = none
  put_round answer x (some v) =
      replied v.rest x.ops (handle_reply from_gzip proc (put_reply answer) (count_store v x.stats))

  unfoldable pub sync_round : Round → Run → Option Run
  unfolding get_round put_round
  sync_round (get key_draw answer) x =
      get_round answer x (generate_random_key_for_retrieval sprintf proc key_draw)
  sync_round (put key_draw size_draw answer) x =
      put_round answer x (generate_for_store sprintf to_gzip proc key_draw size_draw x.entropy)

  unfoldable pub run_get_put_sync : List Round → Run → Option Run
  unfolding and_then sync_round
  run_get_put_sync [] x = some x
  run_get_put_sync (r ∷ rs) x = and_then (sync_round r x) (run_get_put_sync rs)

  unfoldable pub send_get : Stats → Reader → Option (List ℕ) → Option (Sent Call)
  send_get s r none = none
  send_get s r (some key) = some (record { sent = select key; counts = s; left = r })

  unfoldable pub send_put : Stats → Option Stored → Option (Sent Call)
  unfolding count_store
  send_put s none = none
  send_put s (some v) =
      some (record { sent = upsert v.key v.store; counts = count_store v s; left = v.rest })

  unfoldable pub async_round : Draw → Stats → Reader → Option (Sent Call)
  unfolding send_get send_put
  async_round (get_draw key_draw) s r =
      send_get s r (generate_random_key_for_retrieval sprintf proc key_draw)
  async_round (put_draw key_draw size_draw) s r =
      send_put s (generate_for_store sprintf to_gzip proc key_draw size_draw r)

  unfoldable pub run_get_put_async : List Draw → Stats → Reader → Option (Sent (List Call))
  unfolding then_send async_round
  run_get_put_async [] s r = some (record { sent = []; counts = s; left = r })
  run_get_put_async (d ∷ ds) s r = elim (async_round d s r) [
    | none ↦ none
    | some x ↦ then_send x.sent (run_get_put_async ds x.counts x.left)
  ]
