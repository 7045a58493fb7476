-- ===== src/Benchmark/Voting.antt =====
-- The loops of voter's goroutines (placeVotesSQL, placeVotesSync and placeVotesAsync of
-- examples/voter/benchmark_runner.go) until the timeout: a list of rounds, each with the draws of its
-- call and, where the call waits, its answer. `none` is a panic of the process.
use voltdb_client_go.Common.{
  ℕ, ◌+◌, Bool, true, false, ℤ, Option, none, some, List, [], ◌∷◌, Outcome, ok, err, panic,
}
use voltdb_client_go.Response.{VoltRows}
use voltdb_client_go.Rows
use voltdb_client_go.Rows.{Datum, bigint}
use voltdb_client_go.Benchmark.VoterStats.{
  Stats, count_vote, count_code, Reply, got_rows, vote_error, handle_reply,
}
use voltdb_client_go.Benchmark.PhoneCalls.{PhoneCallGenerator, CallDraws, receive}

-- The arguments of the procedure Vote.
pub record VoteCall : Type 0 where
  pub phone_number : ℕ
  pub contestant_number : ℤ
  pub max_votes : ℤ

unfoldable pub vote_call : ℤ → ℤ × ℕ → VoteCall
vote_call max_votes (c, phone) = record {
  phone_number = phone;
  contestant_number = c;
  max_votes = max_votes;
}

-- What the handlers return, the counters that they leave, and the calls so far, the newest first.
pub record Run : Type 0 where
  pub ops : ℕ
  pub stats : Stats
  pub calls : List VoteCall

unfoldable pub noted : VoteCall → ℕ → Run → Option Stats → Option Run
noted call success x none = none
noted call success x (some s) =
    some (record { ops = x.ops + success; stats = s; calls = call ∷ x.calls })

-- `success` of handleVoteReturnCode, by what AdvanceRow returns
unfoldable pub advanced : Outcome VoltRows Bool → ℕ
advanced (ok true _) = 1
advanced (ok false _) = 0
advanced (err e _) = 0
advanced panic = 0

unfoldable pub success_of : Reply → ℕ
unfolding advanced
success_of (got_rows rows) = advanced (Rows.advance_row rows)
success_of vote_error = 0

-- What Query of database/sql, Next and Scan come to.
pub data SqlReply : Type 0 where
  sql_error : SqlReply
  no_row : SqlReply
  unscanned : SqlReply
  scanned : ℤ → SqlReply

-- handleSQLRows: an error of the query is passed over; log.Panic comes before failedVotes.
unfoldable pub handle_sql_rows : SqlReply → Stats → Option Stats
unfolding count_vote count_code
handle_sql_rows sql_error s = some s
handle_sql_rows no_row s = none
handle_sql_rows unscanned s = none
handle_sql_rows (scanned code) s = some (count_code (bigint code) (count_vote s))

unfoldable pub sql_success : SqlReply → ℕ
sql_success sql_error = 0
sql_success no_row = 0
sql_success unscanned = 1
sql_success (scanned code) = 1

pub record Round (R : Type 0) : Type 0 where
  pub draws : CallDraws
  pub reply : R

module _ (max_votes : ℤ) (pcg : PhoneCallGenerator) where
  unfoldable pub voted :
      {R : Type 0} → (R → Stats → Option Stats) → (R → ℕ) → R → Run → Option (ℤ × ℕ) → Option Run
  unfolding noted vote_call
  voted handle success r x none = none
  voted handle success r x (some c) = noted (vote_call max_votes c) (success r) x (handle r x.stats)

  unfoldable pub place_votes :
      {R : Type 0} → (R → Stats → Option Stats) → (R → ℕ) → List (Round R) → Run → Option Run
  unfolding voted
  place_votes handle success [] x = some x
  place_votes handle success (r ∷ rs) x =
      elim (voted handle success r.reply x (receive pcg r.draws)) [
        | none ↦ none
        | some y ↦ place_votes handle success rs y
      ]

  unfoldable pub place_votes_sync : List (Round Reply) → Run → Option Run
  unfolding place_votes handle_reply success_of
  place_votes_sync = place_votes handle_reply success_of

  unfoldable pub place_votes_sql : List (Round SqlReply) → Run → Option Run
  unfolding place_votes handle_sql_rows sql_success
  place_votes_sql = place_votes handle_sql_rows sql_success

  unfoldable pub then_send : Option (ℤ × ℕ) → Option (List VoteCall) → Option (List VoteCall)
  unfolding vote_call
  then_send none o = none
  then_send (some c) none = none
  then_send (some c) (some calls) = some (vote_call max_votes c ∷ calls)

  -- The calls that placeVotesAsync sends before it drains; it counts nothing itself.
  unfoldable pub place_votes_async : List CallDraws → Option (List VoteCall)
  unfolding then_send
  place_votes_async [] = some []
  place_votes_async (d ∷ ds) = then_send (receive pcg d) (place_votes_async ds)
