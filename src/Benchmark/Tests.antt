-- ===== src/Benchmark/Tests.antt =====
-- The theorems on the benchmarks at concrete values (examples/voltkv).
use voltdb_client_go.Common.{
  ℕ, ◌≡◌, ◌⊎◌, refl, arith, true, false, none, some, ℤ, pos, ltb_ℤ, List, [], ◌∷◌,
}
use voltdb_client_go.Benchmark.Config.{KvConfig, accepted, async, new_kv_config}
use voltdb_client_go.Benchmark.Payload.{Reader, Stored, new_benchmark, generate_for_store}
use voltdb_client_go.Benchmark.Values.{processor}
use mathlib.Core.Option
use voltdb_client_go.Benchmark.VoterStats
use voltdb_client_go.Benchmark.VoterStats.{count_vote, count_code}
use voltdb_client_go.Benchmark.PhoneCalls.{
  area_code, PhoneCallGenerator, CallDraws, pick, falsify, build, receive_from, receive,
}
use voltdb_client_go.Benchmark.Voting.{
  vote_call, noted, sql_error, scanned, handle_sql_rows, sql_success, voted, place_votes,
  place_votes_sql,
}
use voltdb_client_go.Benchmark.Storing.{IsValue, generate_for_store-IsValue}

abbrev small : KvConfig
small = record {
  displayinterval = pos 5;
  duration = pos 120;
  warmup = pos 5;
  servers = [];
  poolsize = pos 10;
  preload = true;
  getputratio_below = false;
  getputratio_above = false;
  keysize = pos 32;
  minvaluesize = pos 1;
  maxvaluesize = pos 3;
  entropy = pos 127;
  usecompression = true;
  goroutines = pos 40;
  runtype = async;
}

small-accepted : new_kv_config small ≡ accepted small
unfolding new_kv_config
small-accepted = refl

-- Four draws of entropy bytes.
abbrev draws : List ℕ
draws = 5 ∷ 130 ∷ 7 ∷ 8 ∷ []

abbrev entropy : Reader
entropy = record { bytes = 5 ∷ 3 ∷ 7 ∷ 8 ∷ []; position = 0 }

small-made : new_benchmark small draws ≡ some (processor small, entropy)
unfolding new_benchmark
small-made = refl

abbrev same_bytes : List ℕ → List ℕ
same_bytes bs = bs

abbrev plain_key : ℤ → ℕ → List ℕ
plain_key size k = k ∷ []

-- Three bytes have been read.
abbrev later : Reader
later = record { bytes = 5 ∷ 3 ∷ 7 ∷ 8 ∷ []; position = 3 }

generate_for_store-IsValue_example :
    ((ltb_ℤ small.maxvaluesize small.minvaluesize ≡ true)
      × (generate_for_store plain_key same_bytes (processor small) 12 7 later ≡ none))
    ⊎ ((v : Stored) × (generate_for_store plain_key same_bytes (processor small) 12 7 later
          ≡ some v)
        × IsValue plain_key same_bytes same_bytes small later v)
generate_for_store-IsValue_example =
    generate_for_store-IsValue plain_key same_bytes same_bytes small draws (processor small) entropy
      later 12 7 (λ b. refl) small-accepted (omega arith) (omega arith) small-made refl

-- A generator for two contestants, with the first two entries of its map.
abbrev no_one : PhoneCallGenerator
no_one = record { contestant_count = pos 2; voting_map = pos 0 ∷ pos 1 ∷ [] }

abbrev heads : CallDraws
heads = record { area = 305; coin = 2; contestant = 1; fraud = 7; number = 20000005 }

abbrev tails : CallDraws
tails = record { area = 306; coin = 1; contestant = 1; fraud = 7; number = 12 }

receive-no_one : receive no_one heads ≡ some (pos 0, 9070000005)
unfolding receive receive_from pick build falsify area_code
receive-no_one = refl

receive_last : receive no_one tails ≡ some (pos 2, 2050000012)
unfolding receive receive_from pick build falsify area_code
receive_last = refl

sql_votes :
    Option.map {B = ℕ × ℕ × ℕ}
      (λ x. (x.ops, x.stats.full.total_votes, x.stats.full.accepted_votes))
      (place_votes_sql
        (pos 2)
        no_one
        (record { draws = heads; reply = scanned (pos 1) }
          ∷ record { draws = tails; reply = sql_error }
          ∷ record { draws = tails; reply = scanned (pos 0) }
          ∷ [])
        (record { ops = 0; stats = VoterStats.cleared; calls = [] }))
    ≡ some (2, 2, 1)
unfolding place_votes_sql place_votes voted noted vote_call handle_sql_rows sql_success count_vote
    count_code VoterStats.cleared receive receive_from pick build falsify area_code
sql_votes = refl
