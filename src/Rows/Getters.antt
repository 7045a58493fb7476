-- ===== src/Rows/Getters.antt =====
-- Each getter (voltdbclient/rows.go) returns the value of its column, or nil for null.
use voltdb_client_go.Common.{
  ℕ, ◌<◌, ◌^◌, ◌==◌, ◌≡◌, ◌≢◌, refl, ap, ◌∙◌, arith, Bool, true, false, ℤ, pos, negsuc, eqb_ℤ,
  Option, none, some, List, [], ◌∷◌, length, drop, ok, M, ◌>>=◌, >>=-ok, ltb, if◌then◌else◌,
}
use voltdb_client_go.Word.{
  Fits, unsigned, signed, put_uint, get_uint, wrap, w16, w32, w64, min_int64, signed-unsigned,
  unsigned-lt, get-put_uint16, get-put_uint32, get-put_uint64,
}
use voltdb_client_go.Wire.Instant.{scale}
use voltdb_client_go.Table.Offsets.{type_of, bytes_of}
use voltdb_client_go.Response.{VoltRows}
use voltdb_client_go.Wire.Encoder.Format.{prefixed}
use voltdb_client_go.Rows.{
  Datum, column_bytes, sized, unless, big_int_of, integer_of, small_int_of, float_of, null_float,
  timestamp_of, read_tiny_int, read_prefixed, get_big_int, get_float, get_integer, get_small_int,
  get_timestamp, get_tiny_int, get_varbinary,
}
use voltdb_client_go.Rows.Next.{value_at, or_failed, failing_at}
use voltdb_client_go.Rows.Cells.{Cell, field_of, datum_of, IsCell}

eqb_false : (a b : ℤ) → a ≢ b → eqb_ℤ a b ≡ false
eqb_false a b n = ground arith

unless_some : (low : ℤ) (f : ℤ → Datum) (v : ℤ) → v ≢ low → unless low f v ≡ f v
unfolding unless
unless_some low f v n = rw (eqb_false v low n)

small_int-put : (v : ℤ) → Fits w16 v → signed w16 (get_uint (put_uint 2 (unsigned w16 v))) ≡ v
small_int-put v f =
    ap (signed w16) (get-put_uint16 _ (unsigned-lt w16 v (omega arith))) ∙ signed-unsigned 32768 v f

integer-put : (v : ℤ) → Fits w32 v → signed w32 (get_uint (put_uint 4 (unsigned w32 v))) ≡ v
integer-put v f =
    ap (signed w32) (get-put_uint32 _ (unsigned-lt w32 v (omega arith)))
    ∙ signed-unsigned 2147483648 v f

big_int-put : (v : ℤ) → Fits w64 v → signed w64 (get_uint (put_uint 8 (unsigned w64 v))) ≡ v
big_int-put v f =
    ap (signed w64) (get-put_uint64 _ (unsigned-lt w64 v (omega arith)))
    ∙ signed-unsigned 9223372036854775808 v f

wrap64_lem : (v : ℤ) → Fits w64 v → wrap w64 v ≡ v
wrap64_lem v f = signed-unsigned 9223372036854775808 v f

-- An instant within int64 nanoseconds is within int64 microseconds, and not the lowest one.
micros-Fits : (v : ℤ) → Fits w64 (scale 1000 v) → Fits w64 v × (v ≢ min_int64)
micros-Fits (pos n) f = (omega arith, λ e. ground arith)
micros-Fits (negsuc n) f = (omega arith, λ e. ground arith)

-- The getter of a column's type, as `Next` picks it.
abbrev pub getter : Cell → ℤ → M VoltRows Datum
getter Cell.null = λ ci vr. ok Datum.nil vr
getter (Cell.tinyint v) = get_tiny_int
getter (Cell.smallint v) = get_small_int
getter (Cell.integer v) = get_integer
getter (Cell.bigint v) = get_big_int
getter (Cell.float v) = get_float
getter (Cell.timestamp v) = get_timestamp
getter (Cell.string v) = get_varbinary
getter (Cell.varbinary v) = get_varbinary

-- What the getter makes of the bytes, and leaves the rows as they are.
abbrev pub Yields : (ℤ → List ℕ → M VoltRows Datum) → Cell → Type 0
Yields m c = (ci : ℤ) (vr : VoltRows) → m ci (bytes_of (field_of c)) vr ≡ ok (datum_of c) vr

tinyint-Yields : (v : Option ℤ) → IsCell (Cell.tinyint v) → Yields read_tiny_int (Cell.tinyint v)
unfolding read_tiny_int unless
tinyint-Yields none h ci vr = refl
tinyint-Yields (some v) (f, n) ci vr =
    ap (λ d. ok d vr)
      (ap (unless (negsuc 127) Datum.tinyint) (signed-unsigned 128 v f)
        ∙ unless_some (negsuc 127) Datum.tinyint v n)

smallint-Yields :
    (v : Option ℤ) → IsCell (Cell.smallint v) → Yields (sized 2 small_int_of) (Cell.smallint v)
unfolding sized small_int_of unless
smallint-Yields none h ci vr = refl
smallint-Yields (some v) (f, n) ci vr =
    ap (λ d. ok d vr)
      (ap (unless (negsuc 32767) Datum.smallint) (small_int-put v f)
        ∙ unless_some (negsuc 32767) Datum.smallint v n)

pub integer-Yields :
    (v : Option ℤ) → IsCell (Cell.integer v) → Yields (sized 4 integer_of) (Cell.integer v)
unfolding sized integer_of unless
integer-Yields none h ci vr = refl
integer-Yields (some v) (f, n) ci vr =
    ap (λ d. ok d vr)
      (ap (unless (negsuc 2147483647) Datum.integer) (integer-put v f)
        ∙ unless_some (negsuc 2147483647) Datum.integer v n)

bigint-Yields :
    (v : Option ℤ) → IsCell (Cell.bigint v) → Yields (sized 8 big_int_of) (Cell.bigint v)
unfolding sized big_int_of unless
bigint-Yields none h ci vr = refl
bigint-Yields (some v) (f, n) ci vr =
    ap (λ d. ok d vr)
      (ap (unless min_int64 Datum.bigint) (big_int-put v f)
        ∙ unless_some min_int64 Datum.bigint v n)

float-Yields : (v : Option ℕ) → IsCell (Cell.float v) → Yields (sized 8 float_of) (Cell.float v)
unfolding sized float_of
float-Yields none h ci vr = refl
float-Yields (some bits) (f, n) ci vr =
    let other : bits == null_float ≡ false = ground arith in rw (get-put_uint64 bits f) (rw other)

timestamp-Yields :
    (v : Option ℤ) → IsCell (Cell.timestamp v) → Yields (sized 8 timestamp_of) (Cell.timestamp v)
unfolding sized timestamp_of
timestamp-Yields none h ci vr = refl
timestamp-Yields (some v) h ci vr =
    let (f, n) = micros-Fits v h in
    rw (big_int-put v f) (rw (eqb_false v min_int64 n) (rw (wrap64_lem (scale 1000 v) h)))

read_prefixed_long :
    (f : List ℕ → Datum) (bs : List ℕ) (vr : VoltRows)
    → 4 < length bs
    → read_prefixed f bs vr ≡ ok (f (drop 4 bs)) vr
unfolding read_prefixed
read_prefixed_long f bs vr h =
    let long : length bs == 4 ≡ false = ground arith in
    let enough : ltb (length bs) 4 ≡ false = ground arith in rw (long, enough) refl

-- The bytes behind their length.
pub prefixed-Yields :
    (f : List ℕ → Datum) (b : List ℕ) (vr : VoltRows)
    → read_prefixed f (prefixed b) vr ≡ ok (f b) vr
unfolding read_prefixed
prefixed-Yields f [] vr = refl
prefixed-Yields f (x ∷ b) vr = read_prefixed_long f (prefixed (x ∷ b)) vr (omega arith)

-- What the getter's bytes are turned into, by the type of the cell.
abbrev pub made_of : Cell → ℤ → List ℕ → M VoltRows Datum
made_of Cell.null = λ ci bs vr. ok Datum.nil vr
made_of (Cell.tinyint v) = read_tiny_int
made_of (Cell.smallint v) = sized 2 small_int_of
made_of (Cell.integer v) = sized 4 integer_of
made_of (Cell.bigint v) = sized 8 big_int_of
made_of (Cell.float v) = sized 8 float_of
made_of (Cell.timestamp v) = sized 8 timestamp_of
made_of (Cell.string v) = λ ci. read_prefixed Datum.varbinary
made_of (Cell.varbinary v) = λ ci. read_prefixed Datum.varbinary

made_of-datum : (c : Cell) → IsCell c → Yields (made_of c) c
unfolding read_prefixed
made_of-datum Cell.null h = λ ci vr. refl
made_of-datum (Cell.tinyint v) h = tinyint-Yields v h
made_of-datum (Cell.smallint v) h = smallint-Yields v h
made_of-datum (Cell.integer v) h = integer-Yields v h
made_of-datum (Cell.bigint v) h = bigint-Yields v h
made_of-datum (Cell.float v) h = float-Yields v h
made_of-datum (Cell.timestamp v) h = timestamp-Yields v h
made_of-datum (Cell.string none) h = λ ci vr. refl
made_of-datum (Cell.string (some b)) h = λ ci vr. prefixed-Yields Datum.varbinary b vr
made_of-datum (Cell.varbinary none) h = λ ci vr. refl
made_of-datum (Cell.varbinary (some b)) h = λ ci vr. prefixed-Yields Datum.varbinary b vr

-- A null column is not read.
abbrev pub is_null : Cell → Bool
is_null Cell.null = true
is_null _ = false

abbrev pub after_cell : {A : Type 0} → Cell → A → A → A
after_cell c s t = if is_null c then s else t

made_lem :
    (c : Cell) (ci : ℤ) (s t : VoltRows)
    → IsCell c
    → column_bytes ci s ≡ ok (bytes_of (field_of c)) t
    → (column_bytes ci >>= made_of c ci) s ≡ ok (datum_of c) t
made_lem c ci s t h e = >>=-ok (column_bytes ci) (made_of c ci) e ∙ made_of-datum c h ci t

-- A round of the loop in `Next` on the column of a cell.
value_lem :
    (c : Cell) (i : ℕ) (s t : VoltRows)
    → wrap w16 (pos i) ≡ pos i
    → (column_bytes (pos i) >>= made_of c (pos i)) s ≡ ok (datum_of c) t
    → value_at (type_of (field_of c)) i s ≡ ok (datum_of c) (after_cell c s t)
unfolding value_at or_failed failing_at get_tiny_int get_small_int get_integer get_big_int get_float
    get_timestamp get_varbinary
value_lem Cell.null i s t w e = refl
value_lem (Cell.tinyint v) i s t w e = rw w (ap (failing_at i) e)
value_lem (Cell.smallint v) i s t w e = rw w (ap (failing_at i) e)
value_lem (Cell.integer v) i s t w e = rw w (ap (failing_at i) e)
value_lem (Cell.bigint v) i s t w e = rw w (ap (failing_at i) e)
value_lem (Cell.float v) i s t w e = rw w (ap (failing_at i) e)
value_lem (Cell.timestamp v) i s t w e = rw w (ap (failing_at i) e)
value_lem (Cell.string none) i s t w e = rw w (ap (failing_at i) e)
value_lem (Cell.string (some b)) i s t w e = rw w (ap (failing_at i) e)
value_lem (Cell.varbinary none) i s t w e = rw w (ap (failing_at i) e)
value_lem (Cell.varbinary (some b)) i s t w e = rw w (ap (failing_at i) e)

pub value_at-cell :
    (c : Cell) (i : ℕ) (s t : VoltRows)
    → IsCell c
    → i < 2 ^ 15
    → column_bytes (pos i) s ≡ ok (bytes_of (field_of c)) t
    → value_at (type_of (field_of c)) i s ≡ ok (datum_of c) (after_cell c s t)
value_at-cell c i s t h small e = value_lem c i s t (ground arith) (made_lem c (pos i) s t h e)
