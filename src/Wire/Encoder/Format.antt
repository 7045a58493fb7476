-- ===== src/Wire/Encoder/Format.antt =====
-- The wire format of a value as plain bytes: what the methods of Encoder (wire/encoder.go) are to
-- append, said without a buffer.
use voltdb_client_go.Common.{ℕ, Bool, true, false, ℤ, List, [], ◌∷◌, ◌++◌, length, if◌then◌else◌}
use voltdb_client_go.Word.{unsigned, put_uint, wrap, w8, w16, w32, w64, min_int64}
use voltdb_client_go.Wire.Instant.{round_micros, is_zero, quot}
use voltdb_client_go.Wire.Value.{Scalar, Value, Values, count}

-- A length prefix of four bytes and the bytes.
abbrev pub prefixed : List ℕ → List ℕ
prefixed b = put_uint 4 (length b) ++ b

abbrev pub bool_byte : Bool → ℕ
bool_byte true = 1
bool_byte false = 0

-- Microseconds since the epoch, and the null timestamp for the zero time.
abbrev pub micros : ℤ → ℤ
micros t = if is_zero t then min_int64 else quot 1000 (wrap w64 (round_micros t))

abbrev pub scalar_format : Scalar → List ℕ
scalar_format (Scalar.bool b) = 3 ∷ bool_byte b ∷ []
scalar_format (Scalar.int8 v) = 3 ∷ unsigned w8 v ∷ []
scalar_format (Scalar.int16 v) = 4 ∷ put_uint 2 (unsigned w16 v)
scalar_format (Scalar.int32 v) = 5 ∷ put_uint 4 (unsigned w32 v)
scalar_format (Scalar.int64 v) = 6 ∷ put_uint 8 (unsigned w64 v)
scalar_format (Scalar.float64 bits) = 8 ∷ put_uint 8 bits
scalar_format (Scalar.string s) = 9 ∷ prefixed s

-- A pointer stands for what it points to. What has no format is given no bytes.
abbrev mutual
  pub format : Value → List ℕ
  format (Value.scalar s) = scalar_format s
  format (Value.time t) = 11 ∷ put_uint 8 (unsigned w64 (micros t))
  format (Value.bytes b) = 25 ∷ prefixed b
  format (Value.slice vs) = 157 ∷ (put_uint 2 (count vs) ++ formats vs)
  format (Value.ptr v) = format v
  format _ = []

  pub formats : Values → List ℕ
  formats Values.none = []
  formats (Values.cons v vs) = format v ++ formats vs

-- The values that have a format.
abbrev mutual
  pub IsMarshalable : Value → Type 0
  IsMarshalable (Value.scalar s) = Unit {0}
  IsMarshalable (Value.time t) = Unit {0}
  IsMarshalable (Value.bytes b) = Unit {0}
  IsMarshalable (Value.slice vs) = AreMarshalable vs
  IsMarshalable (Value.ptr v) = IsMarshalable v
  IsMarshalable _ = ⊥

  pub AreMarshalable : Values → Type 0
  AreMarshalable Values.none = Unit {0}
  AreMarshalable (Values.cons v vs) = IsMarshalable v × AreMarshalable vs
