-- ===== src/Benchmark/Counts.antt =====
-- What the counters of voltkv say (examples/voltkv/benchmark_runner.go).
use voltdb_client_go.Common.{
  subst, ℕ, ◌+◌, ◌%◌, ◌≡◌, refl, arith, Bool, true, false, pos, Option, none, some, List, [], ◌∷◌,
  Outcome, ok, err, panic,
}
use voltdb_client_go.Word.{w64}
use voltdb_client_go.Response.{VoltRows}
use voltdb_client_go.Rows
use voltdb_client_go.Rows.{Datum, varbinary}
use voltdb_client_go.Benchmark.Payload.{PayloadProcessor}
use voltdb_client_go.Benchmark.KvStats.{
  Stats, add_uint64, count_op, handle_results, handle_results_error, handle_driver_rows_error,
  count_value, counted, handle_advanced, handle_driver_rows, got_rows, get_error, got_result,
  put_error, Happening, storing, reply, period, warmed_up, handle_reply, happen, and_on, happen_all,
}

-- The operations are the gets and the puts, and no failure has been counted.
pub record IsCounted (s : Stats) : Type 0 where
  pub ops :
      s.full.total_ops
      ≡ (s.full.successful_gets + s.full.missed_gets + s.full.successful_puts) % w64
  pub no_failed_gets : s.full.failed_gets ≡ 0
  pub no_failed_puts : s.full.failed_puts ≡ 0

abbrev Lasts : (Stats → Type 0) → Option Stats → Type 0
Lasts P none = Unit {0}
Lasts P (some s) = P s

-- One operation more than is counted.
record IsAhead (s : Stats) : Type 0 where
  pub ops :
      add_uint64 s.full.total_ops 1
      ≡ (s.full.successful_gets + s.full.missed_gets + s.full.successful_puts) % w64
  pub no_failed_gets : s.full.failed_gets ≡ 0
  pub no_failed_puts : s.full.failed_puts ≡ 0

count_op-IsCounted : (s : Stats) → IsAhead s → IsCounted (count_op s)
unfolding count_op
count_op-IsCounted s v = record {
  ops = v.ops;
  no_failed_gets = v.no_failed_gets;
  no_failed_puts = v.no_failed_puts;
}

handle_results-IsCounted : (s : Stats) → IsCounted s → Lasts IsCounted (handle_results s)
unfolding handle_results
handle_results-IsCounted s v = count_op-IsCounted _ (record {
  ops = omega (arith, v.ops);
  no_failed_gets = v.no_failed_gets;
  no_failed_puts = v.no_failed_puts;
})

counted-IsCounted : (o : Option Stats) → Lasts IsAhead o → Lasts IsCounted (counted o)
unfolding counted
counted-IsCounted none v = tt
counted-IsCounted (some s) v = count_op-IsCounted s v

-- A call has not failed.
abbrev pub Succeeds : Happening → Type 0
Succeeds (reply get_error) = ⊥
Succeeds (reply put_error) = ⊥
Succeeds _ = Unit {0}

abbrev pub AllSucceed : List Happening → Type 0
AllSucceed [] = Unit {0}
AllSucceed (x ∷ xs) = Succeeds x × AllSucceed xs

Lasts-eq : (P : Stats → Type 0) (o : Option Stats) (s : Stats) → o ≡ some s → Lasts P o → P s
Lasts-eq P none s e h = absurd (ground arith)
Lasts-eq P (some t) s e h = (let same : t ≡ s = ground arith in subst P same h)

module _ (from_gzip : List ℕ → List ℕ) (proc : PayloadProcessor) where
  count_value-IsAhead :
      (o : Outcome VoltRows Datum) (s : Stats)
      → IsAhead s
      → Lasts IsAhead (count_value from_gzip proc o s)
  unfolding count_value
  count_value-IsAhead (ok (varbinary b) _) s v = record {
    ops = v.ops;
    no_failed_gets = v.no_failed_gets;
    no_failed_puts = v.no_failed_puts;
  }
  count_value-IsAhead (ok Datum.nil _) s v = tt
  count_value-IsAhead (ok (Datum.tinyint n) _) s v = tt
  count_value-IsAhead (ok (Datum.smallint n) _) s v = tt
  count_value-IsAhead (ok (Datum.integer n) _) s v = tt
  count_value-IsAhead (ok (Datum.bigint n) _) s v = tt
  count_value-IsAhead (ok (Datum.float n) _) s v = tt
  count_value-IsAhead (ok (Datum.decimal n) _) s v = tt
  count_value-IsAhead (ok (Datum.string n) _) s v = tt
  count_value-IsAhead (ok (Datum.timestamp n) _) s v = tt
  count_value-IsAhead (err e _) s v = tt
  count_value-IsAhead panic s v = tt

  handle_advanced-IsCounted :
      (o : Outcome VoltRows Bool) (s : Stats)
      → IsCounted s
      → Lasts IsCounted (handle_advanced from_gzip proc o s)
  unfolding handle_advanced
  handle_advanced-IsCounted (ok true vr) s v = counted-IsCounted _ (
      count_value-IsAhead (Rows.get_varbinary (pos 1) vr) _ (record {
        ops = omega (arith, v.ops);
        no_failed_gets = v.no_failed_gets;
        no_failed_puts = v.no_failed_puts;
      }))
  handle_advanced-IsCounted (ok false vr) s v =
      counted-IsCounted
        (some (record s { full = record s.full { missed_gets = add_uint64 s.full.missed_gets 1 } }))
        (record {
          ops = omega (arith, v.ops);
          no_failed_gets = v.no_failed_gets;
          no_failed_puts = v.no_failed_puts;
        })
  handle_advanced-IsCounted (err e _) s v = tt
  handle_advanced-IsCounted panic s v = tt

  happen-IsCounted :
      (x : Happening) (s : Stats) → IsCounted s → Lasts IsCounted (happen from_gzip proc x s)
  unfolding happen handle_reply handle_driver_rows handle_driver_rows_error handle_results_error
  happen-IsCounted (storing raw store) s v = record {
    ops = v.ops;
    no_failed_gets = v.no_failed_gets;
    no_failed_puts = v.no_failed_puts;
  }
  happen-IsCounted (reply (got_rows rows)) s v =
      handle_advanced-IsCounted (Rows.advance_row rows) s v
  happen-IsCounted (reply get_error) s v = tt
  happen-IsCounted (reply got_result) s v = handle_results-IsCounted s v
  happen-IsCounted (reply put_error) s v = tt
  happen-IsCounted period s v = record {
    ops = v.ops;
    no_failed_gets = v.no_failed_gets;
    no_failed_puts = v.no_failed_puts;
  }
  happen-IsCounted warmed_up s v = record {
    ops = refl;
    no_failed_gets = refl;
    no_failed_puts = refl;
  }

  happen-Succeeds : (x : Happening) (s t : Stats) → happen from_gzip proc x s ≡ some t → Succeeds x
  unfolding happen handle_reply handle_driver_rows_error handle_results_error
  happen-Succeeds (storing raw store) s t e = tt
  happen-Succeeds (reply (got_rows rows)) s t e = tt
  happen-Succeeds (reply get_error) s t e = ground arith
  happen-Succeeds (reply got_result) s t e = tt
  happen-Succeeds (reply put_error) s t e = ground arith
  happen-Succeeds period s t e = tt
  happen-Succeeds warmed_up s t e = tt

  and_on-some :
      (o : Option Stats) (k : Stats → Option Stats) (s : Stats)
      → and_on o k ≡ some s
      → (t : Stats) × (o ≡ some t) × (k t ≡ some s)
  unfolding and_on
  and_on-some none k s e = absurd (ground arith)
  and_on-some (some t) k s e = (t, refl, e)

  -- The operations of voltkv add up: if its counters have been right, and whatever happens then does
  -- not bring the process down, the count of operations is that of the gets that hit, the gets that
  -- missed and the puts, in 64 bits, and no failed get or put is counted. No call has failed: at the
  -- first error the handler panics, before it counts.
  pub happen_all-IsCounted :
      (xs : List Happening) (s t : Stats)
      → IsCounted s
      → happen_all from_gzip proc xs s ≡ some t
      → IsCounted t × AllSucceed xs
  unfolding happen_all
  happen_all-IsCounted [] s t v e = (let same : s ≡ t = ground arith in subst IsCounted same v, tt)
  happen_all-IsCounted (x ∷ xs) s t v e =
      let (u, first, rest) =
        and_on-some (happen from_gzip proc x s) (happen_all from_gzip proc xs) t e in
      let w = Lasts-eq IsCounted (happen from_gzip proc x s) u first (happen-IsCounted x s v) in
      let (right, all) = happen_all-IsCounted xs u t w rest in
      (right, (happen-Succeeds x s u first, all))
