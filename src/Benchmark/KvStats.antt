-- ===== src/Benchmark/KvStats.antt =====
-- What voltkv counts (examples/voltkv/benchmark_runner.go). The counters are uint64. A handler runs
-- without another one in between; `none` is a panic of the process.
use voltdb_client_go.Common.{
  ℕ, ◌+◌, ◌%◌, Bool, true, false, pos, Option, none, some, List, [], ◌∷◌, length, Outcome, ok, err,
  panic,
}
use voltdb_client_go.Word.{w64}
use voltdb_client_go.Response.{VoltRows}
use voltdb_client_go.Rows
use voltdb_client_go.Rows.{Datum, varbinary}
use voltdb_client_go.Benchmark.Payload.{PayloadProcessor, retrieve_from_store}

pub record BenchmarkStats : Type 0 where
  pub total_ops : ℕ
  pub successful_gets : ℕ
  pub missed_gets : ℕ
  pub failed_gets : ℕ
  pub raw_get_data : ℕ
  pub network_get_data : ℕ
  pub successful_puts : ℕ
  pub failed_puts : ℕ
  pub raw_put_data : ℕ
  pub network_put_data : ℕ

-- new(benchmarkStats), and what `clear` leaves.
unfoldable pub cleared : BenchmarkStats
cleared = record {
  total_ops = 0;
  successful_gets = 0;
  missed_gets = 0;
  failed_gets = 0;
  raw_get_data = 0;
  network_get_data = 0;
  successful_puts = 0;
  failed_puts = 0;
  raw_put_data = 0;
  network_put_data = 0;
}

-- atomic.AddUint64
abbrev pub add_uint64 : ℕ → ℕ → ℕ
add_uint64 c n = (c + n) % w64

-- fullStats, and totalOps of periodicStats, its only counter that is used.
pub record Stats : Type 0 where
  pub full : BenchmarkStats
  pub periodic_ops : ℕ

unfoldable pub count_op : Stats → Stats
count_op s = record s {
  full = record s.full { total_ops = add_uint64 s.full.total_ops 1 };
  periodic_ops = add_uint64 s.periodic_ops 1;
}

-- handleDriverRowsError and handleResultsError: log.Panic comes first.
unfoldable pub handle_driver_rows_error : Stats → Option Stats
handle_driver_rows_error s = none

unfoldable pub handle_results_error : Stats → Option Stats
handle_results_error s = none

unfoldable pub handle_results : Stats → Option Stats
unfolding count_op
handle_results s = some (
    count_op
      (record s { full = record s.full { successful_puts = add_uint64 s.full.successful_puts 1 } }))

-- The handlers that end with a count of the operation.
unfoldable pub counted : Option Stats → Option Stats
unfolding count_op
counted none = none
counted (some s) = some (count_op s)

-- What a call of the client comes to.
pub data Reply : Type 0 where
  got_rows : VoltRows → Reply
  get_error : Reply
  got_result : Reply
  put_error : Reply

-- What happens to the counters: a value is about to be stored, a call comes back, printStatistics
-- starts a period anew, or the warmup ends.
pub data Happening : Type 0 where
  storing : (raw store : List ℕ) → Happening
  reply : Reply → Happening
  period : Happening
  warmed_up : Happening

unfoldable pub and_on : Option Stats → (Stats → Option Stats) → Option Stats
and_on none k = none
and_on (some s) k = k s

module _ (from_gzip : List ℕ → List ℕ) where
  -- `val.([]byte)` panics on another value; an error of GetVarbinary does so by log.Panic.
  unfoldable pub count_value : PayloadProcessor → Outcome VoltRows Datum → Stats → Option Stats
  unfolding retrieve_from_store
  count_value proc (ok (varbinary b) _) s =
      let got = retrieve_from_store from_gzip proc b in
      some (record s {
        full = record s.full {
          network_get_data = add_uint64 s.full.network_get_data (length got.1);
          raw_get_data = add_uint64 s.full.raw_get_data (length got.0);
        };
      })
  count_value proc (ok _ _) s = none
  count_value proc (err e _) s = none
  count_value proc panic s = none

  unfoldable pub handle_advanced : PayloadProcessor → Outcome VoltRows Bool → Stats → Option Stats
  unfolding counted count_value
  handle_advanced proc (ok true vr) s = counted (
      count_value proc (Rows.get_varbinary (pos 1) vr) (record s {
        full = record s.full { successful_gets = add_uint64 s.full.successful_gets 1 };
      }))
  handle_advanced proc (ok false vr) s =
      counted
        (some (record s { full = record s.full { missed_gets = add_uint64 s.full.missed_gets 1 } }))
  handle_advanced proc (err e _) s = none
  handle_advanced proc panic s = none

  unfoldable pub handle_driver_rows : PayloadProcessor → VoltRows → Stats → Option Stats
  unfolding handle_advanced
  handle_driver_rows proc rows s = handle_advanced proc (Rows.advance_row rows) s

  unfoldable pub handle_reply : PayloadProcessor → Reply → Stats → Option Stats
  unfolding handle_driver_rows handle_driver_rows_error handle_results handle_results_error
  handle_reply proc (got_rows rows) = handle_driver_rows proc rows
  handle_reply proc get_error = handle_driver_rows_error
  handle_reply proc got_result = handle_results
  handle_reply proc put_error = handle_results_error

  unfoldable pub happen : PayloadProcessor → Happening → Stats → Option Stats
  unfolding handle_reply cleared
  happen proc (storing raw store) s = some (record s {
    full = record s.full {
      network_put_data = add_uint64 s.full.network_put_data (length store);
      raw_put_data = add_uint64 s.full.raw_put_data (length raw);
    };
  })
  happen proc (reply r) s = handle_reply proc r s
  happen proc period s = some (record s { periodic_ops = 0 })
  happen proc warmed_up s = some (record { full = cleared; periodic_ops = 0 })

  unfoldable pub happen_all : PayloadProcessor → List Happening → Stats → Option Stats
  unfolding and_on happen
  happen_all proc [] s = some s
  happen_all proc (x ∷ xs) s = and_on (happen proc x s) (happen_all proc xs)
