-- ===== src/Wire/Encoder.antt =====
-- The type Encoder of wire/encoder.go. `bytes.Buffer` is the list of its bytes; its Write never
-- returns an error, so the branches on one are those of `◌>>=◌`. sha1 and sha256 are parameters.
use voltdb_client_go.Common.{
  ℕ, ◌+◌, Bool, ℤ, pos, negsuc, if◌then◌else◌, List, [], ◌∷◌, ◌++◌, length, unknown_param, ok, M,
  ◌>>=◌, ◌>>◌, pure, fail, panics, eqb_ℤ,
}
use voltdb_client_go.Word.{unsigned, wrap, put_uint, w8, w16, w32, w64, min_int64}
use voltdb_client_go.Wire.Instant.{round_micros, is_zero, quot}
use voltdb_client_go.Wire.Value.{Scalar, Value, Values, count}
pub mod Format
pub mod Marshal
pub mod Login

-- Column types
abbrev pub array_column : ℤ
array_column = negsuc 98

abbrev pub bool_column : ℤ
bool_column = pos 3

abbrev pub byte_column : ℤ
byte_column = pos 3

abbrev pub short_column : ℤ
short_column = pos 4

abbrev pub int_column : ℤ
int_column = pos 5

abbrev pub long_column : ℤ
long_column = pos 6

abbrev pub float_column : ℤ
float_column = pos 8

abbrev pub string_column : ℤ
string_column = pos 9

abbrev pub timestamp_column : ℤ
timestamp_column = pos 11

abbrev pub var_bin_column : ℤ
var_bin_column = pos 25

pub record Encoder : Type 0 where
  pub buf : List ℕ
  pub tmp : List ℕ

unfoldable pub new_encoder : Encoder
new_encoder = record { buf = []; tmp = [] }

unfoldable pub reset : M Encoder (Unit {0})
reset e = ok tt (record { buf = []; tmp = [] })

-- The bytes are copied; the number of bytes written is returned.
unfoldable pub write : List ℕ → M Encoder ℕ
write b e = ok (length b) (record e { buf = e.buf ++ b })

unfoldable pub byte : ℤ → M Encoder ℕ
byte v = write (unsigned w8 v ∷ [])

unfoldable pub uint16 : ℕ → M Encoder ℕ
uint16 v = write (put_uint 2 v)

unfoldable pub int16 : ℤ → M Encoder ℕ
int16 v = uint16 (unsigned w16 v)

unfoldable pub uint32 : ℕ → M Encoder ℕ
uint32 v = write (put_uint 4 v)

unfoldable pub int32 : ℤ → M Encoder ℕ
int32 v = uint32 (unsigned w32 v)

unfoldable pub uint64 : ℕ → M Encoder ℕ
uint64 v = write (put_uint 8 v)

unfoldable pub int64 : ℤ → M Encoder ℕ
int64 v = uint64 (unsigned w64 v)

unfoldable pub float64 : ℕ → M Encoder ℕ
float64 bits = uint64 bits

unfoldable pub binary : List ℕ → M Encoder ℕ
binary v = do s ← int32 (wrap w32 (pos (length v))); n ← write v; pure (s + n)

unfoldable pub bool : Bool → M Encoder ℕ
bool v = if v then byte (pos 1) else byte (pos 0)

-- e.tmp.Reset(); e.tmp.WriteString(v)
set_tmp : List ℕ → M Encoder (Unit {0})
set_tmp v e = ok tt (record e { tmp = v })

unfoldable pub string : List ℕ → M Encoder ℕ
unfolding set_tmp
string v = do set_tmp v; binary v

unfoldable pub time : ℤ → M Encoder ℕ
time v = if is_zero v then int64 min_int64 else int64 (quot 1000 (wrap w64 (round_micros v)))

-- The type byte and then the value: the body of each MarshalX.
tagged : ℤ → M Encoder ℕ → M Encoder ℕ
tagged column value = do n ← byte column; i ← value; pure (n + i)

unfoldable pub marshal_scalar : Scalar → M Encoder ℕ
unfolding tagged
marshal_scalar (Scalar.bool v) = tagged bool_column (bool v)
marshal_scalar (Scalar.int8 v) = tagged byte_column (byte v)
marshal_scalar (Scalar.int16 v) = tagged short_column (int16 v)
marshal_scalar (Scalar.int32 v) = tagged int_column (int32 v)
marshal_scalar (Scalar.int64 v) = tagged long_column (int64 v)
marshal_scalar (Scalar.float64 v) = tagged float_column (float64 v)
marshal_scalar (Scalar.string v) = tagged string_column (string v)

unfoldable pub marshal_time : ℤ → M Encoder ℕ
unfolding tagged
marshal_time v = tagged timestamp_column (time v)

unfoldable pub marshal_bytes : List ℕ → M Encoder ℕ
unfolding tagged
marshal_bytes v = tagged var_bin_column (binary v)

-- MarshalSlice up to its loop: the type byte and the number of elements as an int16.
unfoldable pub slice_header : ℕ → M Encoder ℕ
slice_header l = do n ← byte array_column; s ← int16 (wrap w16 (pos l)); pure (n + s)

unfoldable mutual
  pub marshal : Value → M Encoder ℕ
  marshal Value.nil = fail unknown_param
  marshal (Value.scalar s) = marshal_scalar s
  marshal (Value.named s) = fail unknown_param
  marshal (Value.time t) = marshal_time t
  marshal (Value.bytes b) = marshal_bytes b
  marshal (Value.slice vs) = slice_header (count vs) >>= marshal_elements vs
  marshal (Value.ptr v) = marshal v
  marshal Value.nil_ptr = panics
  marshal Value.struct = fail unknown_param
  marshal Value.other = fail unknown_param

  -- The loop of MarshalSlice, with the size so far.
  pub marshal_elements : Values → ℕ → M Encoder ℕ
  marshal_elements Values.none size = pure size
  marshal_elements (Values.cons v vs) size = marshal v >>= λ c. marshal_elements vs (size + c)

-- The loop of Args and of EncodePI: the sizes are dropped.
unfoldable pub marshal_all : List Value → M Encoder (Unit {0})
marshal_all [] = pure tt
marshal_all (v ∷ vs) = do marshal v; marshal_all vs

unfoldable pub args : List Value → M Encoder (Unit {0})
args v = do int16 (wrap w16 (pos (length v))); marshal_all v

-- Message returns new bytes and leaves the encoder alone.
unfoldable pub message : List ℕ → List ℕ
message v = put_uint 4 (length v) ++ v

module _ (sha1 sha256 : List ℕ → List ℕ) where
  -- The hash of the password: version 0 uses sha1, any other sha256.
  login_hash : ℤ → List ℕ → List ℕ
  login_hash version password = if eqb_ℤ version (pos 0) then sha1 password else sha256 password

  -- "database"
  abbrev service : List ℕ
  service = b'd' ∷ b'a' ∷ b't' ∷ b'a' ∷ b'b' ∷ b'a' ∷ b's' ∷ b'e' ∷ []

  unfoldable pub login : ℤ → List ℕ → List ℕ → M Encoder (List ℕ)
  unfolding login_hash
  login version user password = do
    byte (wrap w8 version)
    byte (if eqb_ℤ version (pos 0) then pos 0 else pos 1)
    string service
    string user
    write (login_hash version password)
    λ e. ok (message e.buf) e
