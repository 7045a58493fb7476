-- ===== src/Benchmark/VoterStats.antt =====
-- What voter counts (examples/voter/benchmark_runner.go). The counters are uint64. A handler runs
-- without another one in between; `none` is a panic of the process.
use voltdb_client_go.Common.{
  ℕ, ◌==◌, if◌then◌else◌, Bool, true, false, ℤ, pos, Option, none, some, List, [], ◌∷◌, Outcome, ok,
  err, panic,
}
use voltdb_client_go.Response.{VoltRows}
use voltdb_client_go.Rows
use voltdb_client_go.Rows.{Datum, bigint}
use voltdb_client_go.Benchmark.KvStats.{add_uint64}

-- potential return codes (synced with Vote procedure)
abbrev pub vote_successful : ℤ
vote_successful = pos 0

abbrev pub err_invalid_contestant : ℤ
err_invalid_contestant = pos 1

abbrev pub err_voter_over_vote_limit : ℤ
err_voter_over_vote_limit = pos 2

pub record BenchmarkStats : Type 0 where
  pub total_votes : ℕ
  pub accepted_votes : ℕ
  pub bad_contestant_votes : ℕ
  pub bad_vote_count_votes : ℕ
  pub failed_votes : ℕ

-- fullStats, and totalVotes of periodicStats, its only counter that is used.
pub record Stats : Type 0 where
  pub full : BenchmarkStats
  pub periodic_votes : ℕ

unfoldable pub cleared : Stats
cleared = record {
  full = record {
    total_votes = 0;
    accepted_votes = 0;
    bad_contestant_votes = 0;
    bad_vote_count_votes = 0;
    failed_votes = 0;
  };
  periodic_votes = 0;
}

unfoldable pub count_vote : Stats → Stats
count_vote s = record s {
  full = record s.full { total_votes = add_uint64 s.full.total_votes 1 };
  periodic_votes = add_uint64 s.periodic_votes 1;
}

-- The switch over the code, which another value passes by.
unfoldable pub count_code : Datum → Stats → Stats
count_code (bigint (pos n)) s =
    if n == 1
    then record s {
      full = record s.full { bad_contestant_votes = add_uint64 s.full.bad_contestant_votes 1 };
    }
    else if n == 2
    then record s {
      full = record s.full { bad_vote_count_votes = add_uint64 s.full.bad_vote_count_votes 1 };
    }
    else if n == 0
    then record s { full = record s.full { accepted_votes = add_uint64 s.full.accepted_votes 1 } }
    else s
count_code _ s = s

-- handleVoteError: log.Panic comes first.
unfoldable pub handle_vote_error : Stats → Option Stats
handle_vote_error s = none

unfoldable pub handle_code : Outcome VoltRows Datum → Stats → Option Stats
unfolding count_vote count_code handle_vote_error
handle_code (ok d _) s = some (count_code d (count_vote s))
handle_code (err e _) s = handle_vote_error s
handle_code panic s = none

unfoldable pub handle_advanced : Outcome VoltRows Bool → Stats → Option Stats
unfolding handle_code
handle_advanced (ok true vr) s = handle_code (Rows.get_big_int (pos 0) vr) s
handle_advanced (ok false vr) s = some s
handle_advanced (err e _) s = none
handle_advanced panic s = none

unfoldable pub handle_vote_return_code : VoltRows → Stats → Option Stats
unfolding handle_advanced
handle_vote_return_code rows s = handle_advanced (Rows.advance_row rows) s

-- What comes back to a vote.
pub data Reply : Type 0 where
  got_rows : VoltRows → Reply
  vote_error : Reply

unfoldable pub handle_reply : Reply → Stats → Option Stats
unfolding handle_vote_return_code handle_vote_error
handle_reply (got_rows rows) = handle_vote_return_code rows
handle_reply vote_error = handle_vote_error

unfoldable pub handle_all : List Reply → Stats → Option Stats
unfolding handle_reply
handle_all [] s = some s
handle_all (r ∷ rs) s = elim (handle_reply r s) [ none ↦ none | some t ↦ handle_all rs t ]
