-- ===== src/Benchmark/Totals.antt =====
-- What the loops of voltkv's goroutines leave in the counters
-- (examples/voltkv/benchmark_runner.go).
use voltdb_client_go.Common.{
  ℕ, suc, ◌+◌, ◌%◌, ◌≡◌, refl, ap, arith, subst, Bool, true, false, ℤ, pos, Option, none, some,
  List, [], ◌∷◌, length, Outcome, ok, err, panic,
}
use voltdb_client_go.Word.{w64}
use voltdb_client_go.Response.{VoltRows}
use voltdb_client_go.Rows
use voltdb_client_go.Rows.{Datum, varbinary}
use voltdb_client_go.Benchmark.Payload.{
  PayloadProcessor, Reader, Stored, generate_random_key_for_retrieval, generate_for_store,
}
use voltdb_client_go.Benchmark.KvStats.{
  Stats, add_uint64, count_op, Reply, got_rows, get_error, got_result, put_error, handle_reply,
  handle_driver_rows, handle_driver_rows_error, handle_results, handle_results_error,
  handle_advanced, count_value, counted,
}
use voltdb_client_go.Benchmark.Runs.{
  Round, get, put, get_reply, put_reply, Run, count_store, replied, and_then, get_round, put_round,
  sync_round, run_get_put_sync, Call, select, upsert, Draw, Sent, then_send, send_get, send_put,
  async_round, run_get_put_async,
}

-- Where it comes through, one more operation is counted than before.
abbrev pub Adds : ℕ → Option Stats → Type 0
Adds n none = Unit {0}
Adds n (some t) = t.full.total_ops ≡ add_uint64 n 1

abbrev Has : ℕ → Option Stats → Type 0
Has n none = Unit {0}
Has n (some t) = t.full.total_ops ≡ n

counted-Adds : (n : ℕ) (o : Option Stats) → Has n o → Adds n (counted o)
unfolding counted count_op
counted-Adds n none h = tt
counted-Adds n (some s) h = ap (λ k. add_uint64 k 1) h

module _ (from_gzip : List ℕ → List ℕ) (proc : PayloadProcessor) where
  count_value-Has :
      (o : Outcome VoltRows Datum) (s : Stats)
      → Has s.full.total_ops (count_value from_gzip proc o s)
  unfolding count_value
  count_value-Has (ok (varbinary b) _) s = refl
  count_value-Has (ok Datum.nil _) s = tt
  count_value-Has (ok (Datum.tinyint n) _) s = tt
  count_value-Has (ok (Datum.smallint n) _) s = tt
  count_value-Has (ok (Datum.integer n) _) s = tt
  count_value-Has (ok (Datum.bigint n) _) s = tt
  count_value-Has (ok (Datum.float n) _) s = tt
  count_value-Has (ok (Datum.decimal n) _) s = tt
  count_value-Has (ok (Datum.string n) _) s = tt
  count_value-Has (ok (Datum.timestamp n) _) s = tt
  count_value-Has (err e _) s = tt
  count_value-Has panic s = tt

  handle_advanced-Adds :
      (o : Outcome VoltRows Bool) (s : Stats)
      → Adds s.full.total_ops (handle_advanced from_gzip proc o s)
  unfolding handle_advanced
  handle_advanced-Adds (ok true vr) s =
      counted-Adds s.full.total_ops _ (count_value-Has (Rows.get_varbinary (pos 1) vr) _)
  handle_advanced-Adds (ok false vr) s =
      counted-Adds s.full.total_ops
        (some (record s { full = record s.full { missed_gets = add_uint64 s.full.missed_gets 1 } }))
        refl
  handle_advanced-Adds (err e _) s = tt
  handle_advanced-Adds panic s = tt

  handle_reply-Adds :
      (r : Reply) (s : Stats) → Adds s.full.total_ops (handle_reply from_gzip proc r s)
  unfolding handle_reply handle_driver_rows handle_driver_rows_error handle_results
      handle_results_error count_op
  handle_reply-Adds (got_rows rows) s = handle_advanced-Adds (Rows.advance_row rows) s
  handle_reply-Adds get_error s = tt
  handle_reply-Adds got_result s = refl
  handle_reply-Adds put_error s = tt

-- After some rounds: what a goroutine has counted of its own, and in all.
abbrev pub Advances : ℕ → Run → Run → Type 0
Advances n x y =
    (y.ops ≡ x.ops + n) × (y.stats.full.total_ops % w64 ≡ (x.stats.full.total_ops + n) % w64)

abbrev pub Lasts : ℕ → Run → Option Run → Type 0
Lasts n x none = Unit {0}
Lasts n x (some y) = Advances n x y

pub replied-Lasts :
    (x : Run) (r : Reader) (o : Option Stats)
    → Adds x.stats.full.total_ops o
    → Lasts 1 x (replied r x.ops o)
unfolding replied
replied-Lasts x r none h = tt
replied-Lasts x r (some t) h = (omega arith, omega (arith, h))

both-Lasts : (n : ℕ) (x y : Run) (o : Option Run) → Advances 1 x y → Lasts n y o → Lasts (suc n) x o
both-Lasts n x y none (p, q) h = tt
both-Lasts n x y (some z) (p, q) (r, s) = (omega arith, omega arith)

-- The bytes that the calls bring to the server as values.
abbrev pub value_bytes : List Call → ℕ
value_bytes [] = 0
value_bytes (select key ∷ cs) = value_bytes cs
value_bytes (upsert key v ∷ cs) = length v + value_bytes cs

abbrev bytes_of : Call → ℕ
bytes_of (select key) = 0
bytes_of (upsert key v) = length v

abbrev Puts : {C : Type 0} → (C → ℕ) → Stats → Option (Sent C) → Type 0
Puts f s none = Unit {0}
Puts f s (some x) =
    x.counts.full.network_put_data % w64 ≡ (s.full.network_put_data + f x.sent) % w64

module _ (sprintf : ℤ → ℕ → List ℕ) (to_gzip from_gzip : List ℕ → List ℕ)
    (proc : PayloadProcessor) where
  get_round-Lasts :
      (answer : Option VoltRows) (x : Run) (key : Option (List ℕ))
      → Lasts 1 x (get_round sprintf to_gzip from_gzip proc answer x key)
  unfolding get_round
  get_round-Lasts answer x none = tt
  get_round-Lasts answer x (some key) =
      replied-Lasts x x.entropy _ (handle_reply-Adds from_gzip proc (get_reply answer) x.stats)

  pub put_round-Lasts :
      (answer : Bool) (x : Run) (v : Option Stored)
      → Lasts 1 x (put_round sprintf to_gzip from_gzip proc answer x v)
  unfolding put_round count_store
  put_round-Lasts answer x none = tt
  put_round-Lasts answer x (some v) =
      replied-Lasts x v.rest _ (handle_reply-Adds from_gzip proc (put_reply answer) _)

  sync_round-Lasts :
      (r : Round) (x : Run) → Lasts 1 x (sync_round sprintf to_gzip from_gzip proc r x)
  unfolding sync_round
  sync_round-Lasts (get kd answer) x = get_round-Lasts answer x _
  sync_round-Lasts (put kd sd answer) x = put_round-Lasts answer x _

  pub and_then-Lasts :
      (n : ℕ) (x : Run) (o : Option Run) (k : Run → Option Run)
      → Lasts 1 x o
      → ((y : Run) → Lasts n y (k y))
      → Lasts (suc n) x (and_then o k)
  unfolding and_then
  and_then-Lasts n x none k h g = tt
  and_then-Lasts n x (some y) k h g = both-Lasts n x y (k y) h (g y)

  run-Lasts :
      (rs : List Round) (x : Run)
      → Lasts (length rs) x (run_get_put_sync sprintf to_gzip from_gzip proc rs x)
  unfolding run_get_put_sync
  run-Lasts [] x = (omega arith, omega arith)
  run-Lasts (r ∷ rs) x =
      and_then-Lasts (length rs) x (sync_round sprintf to_gzip from_gzip proc r x)
        (run_get_put_sync sprintf to_gzip from_gzip proc rs) (sync_round-Lasts r x) (run-Lasts rs)

  -- The goroutine of runGetPutSync that sees its timeout has counted an operation for each round, and
  -- so have the counters of all, in 64 bits: a round that fails has brought the process down.
  pub run_get_put_sync-ops :
      (rs : List Round) (x y : Run)
      → run_get_put_sync sprintf to_gzip from_gzip proc rs x ≡ some y
      → Advances (length rs) x y
  run_get_put_sync-ops rs x y e = subst (Lasts (length rs) x) e (run-Lasts rs x)

  send_get-Puts :
      (s : Stats) (r : Reader) (key : Option (List ℕ))
      → Puts bytes_of s (send_get sprintf to_gzip from_gzip proc s r key)
  unfolding send_get
  send_get-Puts s r none = tt
  send_get-Puts s r (some key) = omega arith

  send_put-Puts :
      (s : Stats) (v : Option Stored)
      → Puts bytes_of s (send_put sprintf to_gzip from_gzip proc s v)
  unfolding send_put count_store
  send_put-Puts s none = tt
  send_put-Puts s (some v) = omega arith

  async_round-Puts :
      (d : Draw) (s : Stats) (r : Reader)
      → Puts bytes_of s (async_round sprintf to_gzip from_gzip proc d s r)
  unfolding async_round
  async_round-Puts (Draw.get_draw kd) s r =
      send_get-Puts s r (generate_random_key_for_retrieval sprintf proc kd)
  async_round-Puts (Draw.put_draw kd sd) s r =
      send_put-Puts s (generate_for_store sprintf to_gzip proc kd sd r)

  then_send-Puts :
      (c : Call) (s t : Stats) (o : Option (Sent (List Call)))
      → t.full.network_put_data % w64 ≡ (s.full.network_put_data + bytes_of c) % w64
      → Puts value_bytes t o
      → Puts value_bytes s (then_send c o)
  unfolding then_send
  then_send-Puts c s t none h k = tt
  then_send-Puts (select key) s t (some x) h k = omega (arith, h, k)
  then_send-Puts (upsert key v) s t (some x) h k = omega (arith, h, k)

  sent-Puts :
      (ds : List Draw) (s : Stats) (o : Option (Sent Call))
      → Puts bytes_of s o
      → ((t : Stats) (r : Reader)
          → Puts value_bytes t (run_get_put_async sprintf to_gzip from_gzip proc ds t r))
      → Puts value_bytes s (elim o [
        | none ↦ none
        | some x ↦
            then_send x.sent (run_get_put_async sprintf to_gzip from_gzip proc ds x.counts x.left)
      ])
  sent-Puts ds s none h g = tt
  sent-Puts ds s (some x) h g =
      then_send-Puts x.sent s x.counts
        (run_get_put_async sprintf to_gzip from_gzip proc ds x.counts x.left) h (g x.counts x.left)

  run-Puts :
      (ds : List Draw) (s : Stats) (r : Reader)
      → Puts value_bytes s (run_get_put_async sprintf to_gzip from_gzip proc ds s r)
  unfolding run_get_put_async
  run-Puts [] s r = omega arith
  run-Puts (d ∷ ds) s r =
      sent-Puts ds s (async_round sprintf to_gzip from_gzip proc d s r) (async_round-Puts d s r)
        (run-Puts ds)

  -- What runGetPutAsync counts as network data of its puts is what it sends: the bytes of the values
  -- in its calls, in 64 bits.
  pub run_get_put_async-bytes :
      (ds : List Draw) (s : Stats) (r : Reader) (x : Sent (List Call))
      → run_get_put_async sprintf to_gzip from_gzip proc ds s r ≡ some x
      → x.counts.full.network_put_data % w64 ≡ (s.full.network_put_data + value_bytes x.sent) % w64
  run_get_put_async-bytes ds s r x e = subst (Puts value_bytes s) e (run-Puts ds s r)
