-- ===== src/Benchmark.antt =====
-- The benchmarks that come with the client (examples/voltkv and examples/voter): their
-- configurations, the payload of voltkv, the calls of voter, the loops of both and what they count.
pub mod Config
pub mod Payload
pub mod Values
pub mod Storing
pub mod KvStats
pub mod VoterStats
pub mod PhoneCalls
pub mod Calls
pub mod Voting
pub mod Polls
pub mod Counts
pub mod Votes
pub mod Runs
pub mod Totals
pub mod SqlRuns
mod Tests
