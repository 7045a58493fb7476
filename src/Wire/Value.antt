-- ===== src/Wire/Value.antt =====
-- The arguments that `Marshal` and `calcParamLen` tell apart: a `driver.Value`, an interface value of
-- any dynamic type.
use voltdb_client_go.Common.{ℕ, suc, ◌<◌, ◌^◌, Bool, ℤ, List, length, All}
use voltdb_client_go.Word.{Fits, IsByte, w8, w16, w32, w64}

-- Signed integers are in the range of their type. A float64 is given by its bits
-- (math.Float64bits), a string by its bytes.
pub data Scalar : Type 0 where
  bool : Bool → Scalar
  int8 int16 int32 int64 : ℤ → Scalar
  float64 : ℕ → Scalar
  string : List ℕ → Scalar

mutual
  pub data Value : Type 0 where
    nil : Value  -- the nil interface
    scalar : Scalar → Value
    named : Scalar → Value  -- of a defined type with that underlying type
    time : ℤ → Value
    bytes : List ℕ → Value  -- a slice whose elements are of kind Uint8
    slice : Values → Value  -- any other slice, its elements as interface values
    ptr : Value → Value
    nil_ptr : Value
    struct : Value  -- a struct that is no time.Time
    other : Value  -- any other kind: unsigned integers, float32, maps, arrays, channels

  pub data Values : Type 0 where
    none : Values
    cons : Value → Values → Values

unfoldable pub count : Values → ℕ
count none = 0
count (cons v vs) = suc (count vs)

-- What Go's types say of a scalar; a length fits a slice or a string that can exist in memory and
-- in an int32 prefix.
abbrev pub IsScalar : Scalar → Type 0
IsScalar (Scalar.bool b) = Unit {0}
IsScalar (Scalar.int8 v) = Fits w8 v
IsScalar (Scalar.int16 v) = Fits w16 v
IsScalar (Scalar.int32 v) = Fits w32 v
IsScalar (Scalar.int64 v) = Fits w64 v
IsScalar (Scalar.float64 v) = v < w64
IsScalar (Scalar.string s) = All IsByte s × (length s < 2 ^ 31)
