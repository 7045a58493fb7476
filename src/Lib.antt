-- ===== src/Lib.antt =====
-- The Go client of VoltDB (voltdb-client-go).
--
-- The client turns calls of stored procedures into messages of VoltDB's wire protocol, sends them
-- to the nodes of a cluster and hands the responses to the callers. A distributor goroutine
-- (voltdbclient/distributor.go) takes every invocation from the caller and passes it on. Each node
-- has a goroutine (`loop` of voltdbclient/node_conn.go) that writes invocations to its socket,
-- keeps the outstanding requests by handle, matches responses with them, and expires them.
--
-- Parts and files:
--   Common, Word            native numbers, lists, signed integers, errors with state; machine
--                           integers and big-endian bytes
--   Wire/Value, Wire/Instant  values of type driver.Value as Marshal tells them apart; time.Time
--   Wire/Encoder            wire/encoder.go: each method is a function on the buffer. Format says
--                           which bytes a value is to have, Marshal compares
--   Wire/Source, Wire/Decoder, Wire/DecoderAt  wire/decoder.go over a buffer, a reader or a
--                           connection in segments. Reads and RoundTrip hold the theorems
--   Invocation              voltdbclient/procedure_invocation.go and EncodePI of
--                           voltdbclient/network_writer.go. Frame: messages; Faults: where the
--                           computed length and the bytes part
--   Table, Response         voltdbclient/table.go and voltdbclient/response.go. Table/Offsets and
--                           Table/Columns: the columns of a row; Response/Loops, Tables
--                           and Status: what a server's message is decoded to
--   Rows                    voltdbclient/rows.go: getters, cursors and Next. Cells: the values of a
--                           table as the server means them; Getters, Fill, View: Next against them;
--                           Fetch: from bytes to values; Cursor, ByName, Decimals: further theorems
--   Result                  voltdbclient/result.go, with its cursor
--   QueryApi                voltdbclient/query_api.go and, in Statement, voltdbclient/statement.go.
--                           Answers puts a call and a node together; Handles: the handles
--   Node                    voltdbclient/node_conn.go and voltdbclient/network_request.go. State:
--                           the variables of `loop`; Setup: the top of an iteration; Handlers and
--                           Step: the cases of its select, an iteration and a run. Requests,
--                           Balance, Completion and Runs lead to the byte count; Routing,
--                           Pressure, Honesty, Held, Replies and Idle are about responses,
--                           timeouts, back pressure and drains. Listen: the goroutine that reads
--                           messages; Connect, Handshake: the login; Lifecycle, Wiring: how the
--                           goroutines are started and reached
--   Url                     voltdbclient/url.go, with Ports
--   Hashinator              voltdbclient/hashinator.go and voltdbclient/utils.go. Search: the
--                           binary search; Padding: the table that a configuration gives
--   Distributor             `loop` of voltdbclient/distributor.go and getConnByCA of
--                           voltdbclient/client_affinity.go. Affinity: the choice of a node;
--                           State, Loop: the goroutine; Routing and Drain: theorems.
--                           Opening: OpenConn and start; Conn: Close and Drain; Topology,
--                           Partitions, Unrouted: the topology and the catalog from rows. Desk:
--                           what its callers see of the loop; Service holds the loop against it;
--                           Waits, Answering, Early are about calls of Drain, Closing and Ending
--                           about calls of Close
--   Limiter                 voltdbclient/latency_limiter.go: the methods of the latency limiter as
--                           steps. Bounds: what any calls keep; Waiting: its waiting loop;
--                           Semaphore: voltdbclient/txn_limiter.go
--   Benchmark               the benchmarks under examples. Config: the validations; Payload, Values,
--                           Storing: examples/voltkv/payload_processor.go; KvStats, Counts, Runs,
--                           SqlRuns, Totals: examples/voltkv/benchmark_runner.go; PhoneCalls,
--                           Calls: examples/voter/phonecall_generator.go; VoterStats, Votes,
--                           Voting, Polls: examples/voter/benchmark_runner.go
-- Each component with theorems has a module Tests, which applies them to concrete values.
--
-- State and effects. A goroutine is a record of its variables and a function from an event, which
-- is what its select receives, to the next state. Channels and connections are numbers; what is
-- sent, written or handed to a consumer is a list of effects. A run is a list of rounds: the clock,
-- the lengths of the channels and the event of each iteration. Time, randomness and answers of
-- other goroutines are given by the rounds, so that a statement for all runs covers every schedule.
-- A Go error is a result, a panic a result of its own.
--
-- Bounds and fuel. Conversions between integer types wrap, with the width written out. Lengths of
-- strings and messages are bound to what an int32 prefix holds where a theorem needs it. The loop
-- of sort.Search runs on fuel: the length of the table, which the distance of its two bounds never
-- exceeds. The endless loop of listen has a number of rounds, which a theorem bounds by the
-- messages that arrive. The loops over the rows of a topology have a round more than there are rows,
-- and a round takes a row. The loop of nextBlock has the nanoseconds that have passed, of which a
-- round takes 10 ^ 8.
--
-- Not modelled: Close, Drain and Begin of voltdbclient/distributor.go beyond what they send;
-- voltdbclient/driver.go; of the examples the flags, the printing and the profiling, what
-- database/sql does, and hello-world. sha1, sha256, murmur3, url.Parse and strings.ToUpper are
-- parameters, and so are gzip, JSON and strconv where a topology is read, and gzip, fmt.Sprintf and
-- math.Sin in the benchmarks; elsewhere these are represented by their results. A float64 flag is
-- known by the tests on it, and the handlers of a benchmark run one at a time. Of a DECIMAL the
-- integer is kept, without its division by 10 ^ 12. sort.Sort is an insertion sort, so entries with
-- equal tokens come in one of the orders that Go allows.
pub mod Common
pub mod Word
pub mod Wire
pub mod Invocation
pub mod Table
pub mod Response
pub mod Rows
pub mod Result
pub mod Url
pub mod QueryApi
pub mod Hashinator
pub mod Distributor
pub mod Limiter
pub mod Node
pub mod Benchmark
