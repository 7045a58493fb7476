-- ===== src/Rows/Decimals.antt =====
-- What GetDecimal (voltdbclient/rows.go) makes of the sixteen bytes that the server sends, which are
-- the two's complement of the value times 10 ^ 12.
use voltdb_client_go.Common.{
  ℕ, ◌<◌, ◌==◌, ◌≡◌, ◌≢◌, refl, ap, ◌∙◌, arith, false, ℤ, pos, negsuc, ok, >>=-ok, ◌-◌,
}
use voltdb_client_go.Word.{Fits, unsigned, put_uint, get_uint, unsigned-lt}
use voltdb_client_go.Response.{VoltRows}
use voltdb_client_go.Rows.{Datum, column_bytes, sized, decimal_of, null_decimal, get_decimal}

abbrev pub w128 : ℕ
w128 = 340282366920938463463374607431768211456

get-put_uint128 : (v : ℕ) → v < w128 → get_uint (put_uint 16 v) ≡ v
get-put_uint128 v h = omega arith

not_null :
    (v : ℤ) → Fits w128 v → v ≢ negsuc (null_decimal - 1) → unsigned w128 v == null_decimal ≡ false
not_null (pos n) f h = ground arith
not_null (negsuc n) f h = let other : n ≢ null_decimal - 1 = λ e. h (ap negsuc e) in ground arith

-- A value that is not null comes back as a number without a sign: a negative one has 2 ^ 128 added.
pub get_decimal-unsigned :
    (v : ℤ) (ci : ℤ) (s t : VoltRows)
    → Fits w128 v
    → v ≢ negsuc (null_decimal - 1)
    → column_bytes ci s ≡ ok (put_uint 16 (unsigned w128 v)) t
    → get_decimal ci s ≡ ok (Datum.decimal (unsigned w128 v)) t
unfolding get_decimal sized decimal_of
get_decimal-unsigned v ci s t f n e =
    let other : unsigned w128 v == null_decimal ≡ false = not_null v f n in
    let whole : get_uint (put_uint 16 (unsigned w128 v)) ≡ unsigned w128 v =
      get-put_uint128 (unsigned w128 v) (unsigned-lt w128 v (omega arith)) in
    >>=-ok (column_bytes ci) (sized 16 decimal_of ci) {s = s} e ∙ rw (whole, other) refl
