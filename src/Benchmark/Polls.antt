-- ===== src/Benchmark/Polls.antt =====
-- What the loops of voter's goroutines count and send (examples/voter/benchmark_runner.go).
use voltdb_client_go.Common.{
  ℕ, suc, ◌+◌, ◌%◌, ◌<◌, ◌≡◌, refl, ap, arith, subst, Bool, true, false, ℤ, pos, Option, none, some,
  List, [], ◌∷◌, length, All, Outcome, ok, err, panic,
}
use voltdb_client_go.Word.{w64}
use voltdb_client_go.Response.{VoltRows}
use voltdb_client_go.Rows
use voltdb_client_go.Rows.{Datum}
use voltdb_client_go.Benchmark.VoterStats.{
  Stats, count_vote, count_code, handle_code, handle_advanced, handle_vote_return_code, Reply,
  got_rows, vote_error, handle_reply,
}
use voltdb_client_go.Benchmark.PhoneCalls.{
  PhoneCallGenerator, CallDraws, receive, new_phone_call_generator,
}
use voltdb_client_go.Benchmark.Calls.{IsCall, new_phone_call_generator-IsCall}
use voltdb_client_go.Benchmark.Voting.{
  VoteCall, vote_call, Run, noted, advanced, success_of, SqlReply, sql_error, no_row, unscanned,
  scanned, handle_sql_rows, sql_success, Round, voted, place_votes, place_votes_sync,
  place_votes_sql, then_send, place_votes_async,
}

-- Where it comes through, so many more votes are counted than before.
abbrev Adds : ℕ → Stats → Option Stats → Type 0
Adds k s none = Unit {0}
Adds k s (some t) = t.full.total_votes % w64 ≡ (s.full.total_votes + k) % w64

count_code-total : (d : Datum) (s : Stats) → (count_code d s).full.total_votes ≡ s.full.total_votes
unfolding count_code
count_code-total d s = ground arith

count_vote-Adds : (d : Datum) (s : Stats) → Adds 1 s (some (count_code d (count_vote s)))
unfolding count_vote
count_vote-Adds d s = (let e = count_code-total d (count_vote s) in omega (arith, e))

handle_code-Adds : (o : Outcome VoltRows Datum) (s : Stats) → Adds 1 s (handle_code o s)
unfolding handle_code
handle_code-Adds (ok d _) s = count_vote-Adds d s
handle_code-Adds (err e _) s = tt
handle_code-Adds panic s = tt

handle_advanced-Adds :
    (o : Outcome VoltRows Bool) (s : Stats) → Adds (advanced o) s (handle_advanced o s)
unfolding handle_advanced advanced
handle_advanced-Adds (ok true vr) s = handle_code-Adds (Rows.get_big_int (pos 0) vr) s
handle_advanced-Adds (ok false vr) s = omega arith
handle_advanced-Adds (err e _) s = tt
handle_advanced-Adds panic s = tt

handle_reply-Adds : (r : Reply) (s : Stats) → Adds (success_of r) s (handle_reply r s)
unfolding handle_reply handle_vote_return_code success_of
handle_reply-Adds (got_rows rows) s = handle_advanced-Adds (Rows.advance_row rows) s
handle_reply-Adds vote_error s = tt

handle_sql_rows-Adds : (r : SqlReply) (s : Stats) → Adds (sql_success r) s (handle_sql_rows r s)
unfolding handle_sql_rows sql_success
handle_sql_rows-Adds sql_error s = omega arith
handle_sql_rows-Adds no_row s = tt
handle_sql_rows-Adds unscanned s = tt
handle_sql_rows-Adds (scanned code) s = count_vote-Adds (Datum.bigint code) s

-- What a goroutine has counted of its own it has counted in all, too: `k` votes.
abbrev Counts : Run → Run → Type 0
Counts x y =
    (k : ℕ) × (y.ops ≡ x.ops + k)
    × (y.stats.full.total_votes % w64 ≡ (x.stats.full.total_votes + k) % w64)

abbrev Lasts : Run → Option Run → Type 0
Lasts x none = Unit {0}
Lasts x (some y) = Counts x y

noted-Lasts :
    (call : VoteCall) (k : ℕ) (x : Run) (o : Option Stats)
    → Adds k x.stats o
    → Lasts x (noted call k x o)
unfolding noted
noted-Lasts call k x none h = tt
noted-Lasts call k x (some s) h = (k, refl, h)

both-Lasts : (x y : Run) (o : Option Run) → Counts x y → Lasts y o → Lasts x o
both-Lasts x y none c h = tt
both-Lasts x y (some z) (k, p, q) (l, r, s) = (k + l, omega arith, omega arith)

module _ (max_votes : ℤ) (pcg : PhoneCallGenerator) where
  module _ {R : Type 0} (handle : R → Stats → Option Stats) (success : R → ℕ)
      (adds : (r : R) (s : Stats) → Adds (success r) s (handle r s)) where
    voted-Lasts :
        (r : R) (x : Run) (c : Option (ℤ × ℕ)) → Lasts x (voted max_votes pcg handle success r x c)
    unfolding voted
    voted-Lasts r x none = tt
    voted-Lasts r x (some c) = noted-Lasts (vote_call max_votes c) (success r) x _ (adds r x.stats)

    rest-Lasts :
        (x : Run) (o : Option Run) (rs : List (Round R))
        → Lasts x o
        → ((y : Run) → Lasts y (place_votes max_votes pcg handle success rs y))
        → Lasts x (elim o [ none ↦ none | some y ↦ place_votes max_votes pcg handle success rs y ])
    rest-Lasts x none rs h g = tt
    rest-Lasts x (some y) rs h g = both-Lasts x y _ h (g y)

    place_votes-Lasts :
        (rs : List (Round R)) (x : Run) → Lasts x (place_votes max_votes pcg handle success rs x)
    unfolding place_votes
    place_votes-Lasts [] x = (0, omega arith, omega arith)
    place_votes-Lasts (r ∷ rs) x =
        rest-Lasts x _ rs (voted-Lasts r.reply x (receive pcg r.draws)) (place_votes-Lasts rs)

  -- A goroutine of placeVotesSync that sees its timeout has added to the votes of all what it has
  -- counted itself, in 64 bits.
  pub place_votes_sync-Counts :
      (rs : List (Round Reply)) (x y : Run)
      → place_votes_sync max_votes pcg rs x ≡ some y
      → Counts x y
  unfolding place_votes_sync
  place_votes_sync-Counts rs x y e =
      subst (Lasts x) e (place_votes-Lasts handle_reply success_of handle_reply-Adds rs x)

  -- So has a goroutine of placeVotesSQL.
  pub place_votes_sql-Counts :
      (rs : List (Round SqlReply)) (x y : Run)
      → place_votes_sql max_votes pcg rs x ≡ some y
      → Counts x y
  unfolding place_votes_sql
  place_votes_sql-Counts rs x y e =
      subst (Lasts x) e (place_votes-Lasts handle_sql_rows sql_success handle_sql_rows-Adds rs x)

-- A vote as voter sends it.
pub record IsVote (n : ℕ) (max_votes : ℤ) (call : VoteCall) : Type 0 where
  pub call_made : IsCall n call.contestant_number call.phone_number
  pub limit : call.max_votes ≡ max_votes

sends_all :
    (max_votes : ℤ) (pcg : PhoneCallGenerator) (n : ℕ)
    → ((d : CallDraws)
        → (c : ℤ) × (phone : ℕ) × (receive pcg d ≡ some (c, phone)) × IsCall (suc n) c phone)
    → (ds : List CallDraws)
    → (calls : List VoteCall) × (place_votes_async max_votes pcg ds ≡ some calls)
      × (length calls ≡ length ds)
      × All (IsVote (suc n) max_votes) calls
unfolding place_votes_async then_send vote_call
sends_all max_votes pcg n comes [] = ([], refl, refl, tt)
sends_all max_votes pcg n comes (d ∷ ds) =
    let (c, phone, e, call) = comes d in
    let (calls, f, l, votes) = sends_all max_votes pcg n comes ds in
    (
      vote_call max_votes (c, phone) ∷ calls,
      rw (e, f),
      ap suc l,
      (record { call_made = call; limit = refl }, votes),
    )

-- A goroutine of placeVotesAsync sends a vote in each round, from a generator for 1 to 2147483647
-- contestants: each has a contestant number and an area code of the generator, and the limit.
pub place_votes_async-IsVote :
    (sine_product : ℕ → ℤ → ℕ) (n : ℕ) (draws : ℕ → ℕ) (max_votes : ℤ)
    → n < 2147483647
    → (pcg : PhoneCallGenerator) × (new_phone_call_generator sine_product (pos (suc n)) draws
        ≡ some pcg)
      × ((ds : List CallDraws)
          → (calls : List VoteCall) × (place_votes_async max_votes pcg ds ≡ some calls)
            × (length calls ≡ length ds)
            × All (IsVote (suc n) max_votes) calls)
place_votes_async-IsVote sine_product n draws max_votes h =
    let (pcg, made, comes) = new_phone_call_generator-IsCall sine_product n draws h in
    (pcg, made, sends_all max_votes pcg n comes)
