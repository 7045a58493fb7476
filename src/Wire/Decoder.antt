-- ===== src/Wire/Decoder.antt =====
-- The type Decoder of wire/decoder.go, over the readers of `Source`. Its state is the reader; the
-- reader is set by SetReader and cleared by Reset, which are the choice of the state here.
use voltdb_client_go.Common.{
  ℕ, zero, suc, if◌then◌else◌, ℤ, pos, negsuc, eqb_ℤ, List, [], ◌∷◌, auth_failed, ok, err, panic, M,
  ◌>>=◌, ◌>>◌, pure, panics, guard,
}
use voltdb_client_go.Word.{unsigned, signed, wrap, put_uint, get_uint, w8, w16, w32, w64, min_int64}
use voltdb_client_go.Wire.Instant.{zero_time, scale, round_micros}
use voltdb_client_go.Wire.Source.{Source, reader, read, read_full, padded}
pub mod Reads
pub mod RoundTrip
pub mod Framing
pub mod Login

-- `var a [n]byte; d.r.Read(a[:])`: one read, whose count is dropped.
read_array : ℕ → M Source (List ℕ)
read_array n = do b ← read n; pure (padded n b)

unfoldable pub uint32 : M Source ℕ
unfolding read_array
uint32 = do b ← read_array 4; pure (get_uint b)

unfoldable pub int32 : M Source ℤ
int32 = do u ← uint32; pure (signed w32 u)

unfoldable pub uint64 : M Source ℕ
unfolding read_array
uint64 = do b ← read_array 8; pure (get_uint b)

unfoldable pub int64 : M Source ℤ
int64 = do u ← uint64; pure (signed w64 u)

unfoldable pub uint16 : M Source ℕ
unfolding read_array
uint16 = do b ← read_array 2; pure (get_uint b)

unfoldable pub int16 : M Source ℤ
int16 = do u ← uint16; pure (signed w16 u)

unfoldable pub byte : M Source ℤ
unfolding read_array
byte = do b ← read_array 1; pure (signed w8 (get_uint b))

-- `time.Unix(0, v*int64(time.Microsecond))`, rounded, and the zero time for the null timestamp.
abbrev pub of_micros : ℤ → ℤ
of_micros v = if eqb_ℤ v min_int64 then zero_time else round_micros (wrap w64 (scale 1000 v))

unfoldable pub time : M Source ℤ
time = do v ← int64; pure (of_micros v)

-- A float64 is its bits.
unfoldable pub float64 : M Source ℕ
float64 = uint64

-- `make([]byte, length)` panics on a negative length.
read_string : ℤ → M Source (List ℕ)
unfolding read_array
read_string (pos n) = read_array n
read_string (negsuc zero) = pure []
read_string (negsuc (suc n)) = panics

unfoldable pub string : M Source (List ℕ)
unfolding read_string
string = do length ← int32; read_string length

-- The loop of StringSlice.
strings : ℕ → M Source (List (List ℕ))
strings zero = pure []
strings (suc n) = do v ← string; a ← strings n; pure (v ∷ a)

-- `make([]string, size)` panics on a negative size.
sized_strings : ℤ → M Source (List (List ℕ))
unfolding strings
sized_strings (pos n) = strings n
sized_strings (negsuc n) = panics

unfoldable pub string_slice : M Source (List (List ℕ))
unfolding sized_strings
string_slice = do size ← int16; sized_strings size

unfoldable pub message_header : M Source ℤ
message_header = int32

message_body : ℤ → M Source (List ℕ)
message_body (pos n) = read_full n
message_body (negsuc n) = panics

unfoldable pub message : M Source (List ℕ)
unfolding message_body
message = do size ← message_header; message_body size

pub record ConnInfo : Type 0 where
  pub host_id : ℤ
  pub connection : ℤ
  pub cluster_start : ℤ
  pub leader_value : ℤ
  pub leader_ip : List ℕ
  pub build : List ℕ

unfoldable pub login_info : M Source ConnInfo
login_info = do
  _ ← byte
  code ← byte
  guard (eqb_ℤ code (pos 0)) (auth_failed code)
  host ← int32
  conn ← int64
  start ← time
  leader ← int32
  build ← string
  pure (record {
    host_id = host;
    connection = conn;
    cluster_start = start;
    leader_value = leader;
    leader_ip = put_uint 4 (unsigned w32 leader);
    build = build;
  })

-- The reader of `msg` is dropped after use.
run_on : List ℕ → M Source ConnInfo → M Source ConnInfo
run_on msg m s = elim (m (reader msg)) [ ok c _ ↦ ok c s | err e _ ↦ err e s | panic ↦ panic ]

unfoldable pub login : M Source ConnInfo
unfolding run_on
login = do msg ← message; run_on msg login_info
