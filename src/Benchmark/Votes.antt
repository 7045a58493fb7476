-- ===== src/Benchmark/Votes.antt =====
-- What the counters of voter say (examples/voter/benchmark_runner.go).
use voltdb_client_go.Common.{
  subst, ◌+◌, ◌%◌, ◌≡◌, ◌⊎◌, inl, inr, sym, arith, Bool, true, false, pos, Option, none, some, List,
  [], ◌∷◌, Outcome, ok, err, panic, All,
}
use voltdb_client_go.Word.{w64}
use voltdb_client_go.Response.{VoltRows}
use voltdb_client_go.Rows
use voltdb_client_go.Rows.{Datum, bigint}
use voltdb_client_go.Benchmark.VoterStats.{
  Stats, count_vote, count_code, handle_code, handle_advanced, handle_vote_return_code, Reply,
  got_rows, vote_error, handle_reply, handle_all,
}

-- Each vote is accepted or rejected, and no failure has been counted.
pub record IsCounted (s : Stats) : Type 0 where
  pub votes :
      s.full.total_votes
      ≡ (s.full.accepted_votes + s.full.bad_contestant_votes + s.full.bad_vote_count_votes) % w64
  pub no_failed : s.full.failed_votes ≡ 0

-- The server answers with one of the codes that the client knows.
abbrev pub IsKnown : Datum → Type 0
IsKnown d = (d ≡ bigint (pos 0)) ⊎ ((d ≡ bigint (pos 1)) ⊎ (d ≡ bigint (pos 2)))

abbrev pub HasCode : Outcome VoltRows Datum → Type 0
HasCode (ok d _) = IsKnown d
HasCode (err e _) = Unit {0}
HasCode panic = Unit {0}

abbrev pub HasRow : Outcome VoltRows Bool → Type 0
HasRow (ok true vr) = HasCode (Rows.get_big_int (pos 0) vr)
HasRow (ok false vr) = Unit {0}
HasRow (err e _) = Unit {0}
HasRow panic = Unit {0}

abbrev pub Agrees : Reply → Type 0
Agrees (got_rows rows) = HasRow (Rows.advance_row rows)
Agrees vote_error = Unit {0}

abbrev Lasts : Option Stats → Type 0
Lasts none = Unit {0}
Lasts (some s) = IsCounted s

count_code-IsCounted :
    (d : Datum) (s : Stats) → IsKnown d → IsCounted s → IsCounted (count_code d (count_vote s))
unfolding count_code count_vote
count_code-IsCounted d s (inl e) v =
    subst (λ c. IsCounted (count_code c (count_vote s))) (sym e)
      (record { votes = omega (arith, v.votes); no_failed = v.no_failed })
count_code-IsCounted d s (inr (inl e)) v =
    subst (λ c. IsCounted (count_code c (count_vote s))) (sym e)
      (record { votes = omega (arith, v.votes); no_failed = v.no_failed })
count_code-IsCounted d s (inr (inr e)) v =
    subst (λ c. IsCounted (count_code c (count_vote s))) (sym e)
      (record { votes = omega (arith, v.votes); no_failed = v.no_failed })

handle_code-IsCounted :
    (o : Outcome VoltRows Datum) (s : Stats) → HasCode o → IsCounted s → Lasts (handle_code o s)
unfolding handle_code
handle_code-IsCounted (ok d _) s k v = count_code-IsCounted d s k v
handle_code-IsCounted (err e _) s k v = tt
handle_code-IsCounted panic s k v = tt

handle_advanced-IsCounted :
    (o : Outcome VoltRows Bool) (s : Stats) → HasRow o → IsCounted s → Lasts (handle_advanced o s)
unfolding handle_advanced
handle_advanced-IsCounted (ok true vr) s k v =
    handle_code-IsCounted (Rows.get_big_int (pos 0) vr) s k v
handle_advanced-IsCounted (ok false vr) s k v = v
handle_advanced-IsCounted (err e _) s k v = tt
handle_advanced-IsCounted panic s k v = tt

handle_reply-IsCounted : (r : Reply) (s : Stats) → Agrees r → IsCounted s → Lasts (handle_reply r s)
unfolding handle_reply handle_vote_return_code
handle_reply-IsCounted (got_rows rows) s k v =
    handle_advanced-IsCounted (Rows.advance_row rows) s k v
handle_reply-IsCounted vote_error s k v = tt

rest-IsCounted :
    (o : Option Stats) (rs : List Reply) (t : Stats)
    → ((s : Stats) → IsCounted s → handle_all rs s ≡ some t → IsCounted t)
    → Lasts o
    → elim o [ none ↦ none | some s ↦ handle_all rs s ] ≡ some t
    → IsCounted t
rest-IsCounted none rs t h v e = absurd (ground arith)
rest-IsCounted (some s) rs t h v e = h s v e

-- The votes of voter add up: if its counters have been right, the server answers with codes that the
-- client knows, and no reply brings the process down, then the count of votes is that of the accepted
-- ones and of both kinds of rejected ones, in 64 bits, and none is counted as failed.
pub handle_all-IsCounted :
    (rs : List Reply) (s t : Stats)
    → All Agrees rs
    → IsCounted s
    → handle_all rs s ≡ some t
    → IsCounted t
unfolding handle_all
handle_all-IsCounted [] s t k v e = (let same : s ≡ t = ground arith in subst IsCounted same v)
handle_all-IsCounted (r ∷ rs) s t (k, ks) v e =
    rest-IsCounted (handle_reply r s) rs t (λ u. handle_all-IsCounted rs u t ks)
      (handle_reply-IsCounted r s k v) e
