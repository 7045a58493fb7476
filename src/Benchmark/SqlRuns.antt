-- ===== src/Benchmark/SqlRuns.antt =====
-- The loop of voltkv's goroutines over database/sql (runGetPutSQL of
-- examples/voltkv/benchmark_runner.go) until the timeout, from where both statements are prepared.
use voltdb_client_go.Common.{
  ℕ, ◌≡◌, refl, arith, subst, Bool, ℤ, Option, none, some, List, [], ◌∷◌, length,
}
use voltdb_client_go.Benchmark.Payload.{
  PayloadProcessor, generate_random_key_for_retrieval, generate_for_store, retrieve_from_store,
}
use voltdb_client_go.Benchmark.KvStats.{Stats, add_uint64, count_op, counted}
use voltdb_client_go.Benchmark.Runs.{Run, replied, and_then, put_round}
use voltdb_client_go.Benchmark.Totals.{
  Adds, Advances, Lasts, replied-Lasts, put_round-Lasts, and_then-Lasts,
}

-- What Query, Next and Scan of database/sql come to.
pub data SqlReply : Type 0 where
  query_error : SqlReply
  no_row : SqlReply
  unscanned : SqlReply
  scanned : List ℕ → SqlReply

-- A round: a get with its draw and its answer, or a put with its draws and whether it succeeds.
pub data SqlRound : Type 0 where
  get : (key_draw : ℕ) → SqlReply → SqlRound
  put : (key_draw size_draw : ℕ) → Bool → SqlRound

module _ (sprintf : ℤ → ℕ → List ℕ) (to_gzip from_gzip : List ℕ → List ℕ)
    (proc : PayloadProcessor) where
  unfoldable pub handle_sql_rows : SqlReply → Stats → Option Stats
  unfolding counted retrieve_from_store
  handle_sql_rows query_error s = none
  handle_sql_rows no_row s =
      counted
        (some (record s { full = record s.full { missed_gets = add_uint64 s.full.missed_gets 1 } }))
  handle_sql_rows unscanned s = none
  handle_sql_rows (scanned val) s =
      let got = retrieve_from_store from_gzip proc val in
      counted (
        some (record s {
          full = record s.full {
            successful_gets = add_uint64 s.full.successful_gets 1;
            network_get_data = add_uint64 s.full.network_get_data (length got.1);
            raw_get_data = add_uint64 s.full.raw_get_data (length got.0);
          };
        }))

  unfoldable pub sql_get_round : SqlReply → Run → Option (List ℕ) → Option Run
  unfolding replied handle_sql_rows
  sql_get_round answer x none = none
  sql_get_round answer x (some key) = replied x.entropy x.ops (handle_sql_rows answer x.stats)

  unfoldable pub sql_round : SqlRound → Run → Option Run
  unfolding sql_get_round put_round
  sql_round (get key_draw answer) x =
      sql_get_round answer x (generate_random_key_for_retrieval sprintf proc key_draw)
  sql_round (put key_draw size_draw answer) x =
      put_round sprintf to_gzip from_gzip proc answer x
        (generate_for_store sprintf to_gzip proc key_draw size_draw x.entropy)

  unfoldable pub run_get_put_sql : List SqlRound → Run → Option Run
  unfolding and_then sql_round
  run_get_put_sql [] x = some x
  run_get_put_sql (r ∷ rs) x = and_then (sql_round r x) (run_get_put_sql rs)

  handle_sql_rows-Adds : (r : SqlReply) (s : Stats) → Adds s.full.total_ops (handle_sql_rows r s)
  unfolding handle_sql_rows counted count_op
  handle_sql_rows-Adds query_error s = tt
  handle_sql_rows-Adds no_row s = refl
  handle_sql_rows-Adds unscanned s = tt
  handle_sql_rows-Adds (scanned val) s = refl

  sql_get_round-Lasts :
      (answer : SqlReply) (x : Run) (key : Option (List ℕ)) → Lasts 1 x (sql_get_round answer x key)
  unfolding sql_get_round
  sql_get_round-Lasts answer x none = tt
  sql_get_round-Lasts answer x (some key) =
      replied-Lasts x x.entropy _ (handle_sql_rows-Adds answer x.stats)

  sql_round-Lasts : (r : SqlRound) (x : Run) → Lasts 1 x (sql_round r x)
  unfolding sql_round
  sql_round-Lasts (get kd answer) x = sql_get_round-Lasts answer x _
  sql_round-Lasts (put kd sd answer) x = put_round-Lasts sprintf to_gzip from_gzip proc answer x _

  run-Lasts : (rs : List SqlRound) (x : Run) → Lasts (length rs) x (run_get_put_sql rs x)
  unfolding run_get_put_sql
  run-Lasts [] x = (omega arith, omega arith)
  run-Lasts (r ∷ rs) x =
      and_then-Lasts sprintf to_gzip from_gzip proc (length rs) x (sql_round r x)
        (run_get_put_sql rs) (sql_round-Lasts r x) (run-Lasts rs)

  -- The goroutine of runGetPutSQL that sees its timeout has counted an operation for each round, and
  -- so have the counters of all, in 64 bits.
  pub run_get_put_sql-ops :
      (rs : List SqlRound) (x y : Run) → run_get_put_sql rs x ≡ some y → Advances (length rs) x y
  run_get_put_sql-ops rs x y e = subst (Lasts (length rs) x) e (run-Lasts rs x)
