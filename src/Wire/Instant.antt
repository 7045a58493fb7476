-- ===== src/Wire/Instant.antt =====
-- What the code uses of Go's package time: an instant is its nanoseconds since the Unix epoch.
-- Locations and monotonic readings play no part in what is sent.
use voltdb_client_go.Word.{Fits, w64, min_int64}
use voltdb_client_go.Common.{
  refl, false, Bool-cases, inl, inr, ◌==◌, ℕ, suc, ◌+◌, ◌-◌, ◌*◌, ◌/◌, ◌≡◌, ap, arith, Bool, ℤ, pos,
  negsuc, sub_ℕ, ◌+ℤ◌, eqb_ℤ, ◌∙◌, ◌≤◌, ◌<◌,
}

-- time.Time{}: the first of January of the year 1.
abbrev pub zero_time : ℤ
zero_time = negsuc 62135596799999999999

abbrev pub is_zero : ℤ → Bool
is_zero t = eqb_ℤ t zero_time

-- The multiple of `k`, and the quotient rounded down.
abbrev pub scale : ℕ → ℤ → ℤ
scale k (pos n) = pos (n * k)
scale k (negsuc n) = negsuc (n * k + k - 1)

abbrev pub floor_div : ℕ → ℤ → ℤ
floor_div k (pos n) = pos (n / k)
floor_div k (negsuc n) = negsuc (n / k)

-- Go's `/`, which rounds towards zero.
abbrev pub quot : ℕ → ℤ → ℤ
quot k (pos n) = pos (n / k)
quot k (negsuc n) = sub_ℕ 0 (suc n / k)

-- `t.Round(time.Microsecond)`: to the nearest microsecond, and halfway up.
abbrev pub round_micros : ℤ → ℤ
round_micros t = scale 1000 (floor_div 1000 (t +ℤ pos 500))

-- The instants that the protocol carries unchanged.
abbrev pub IsMicros : ℤ → Type 0
IsMicros t = round_micros t ≡ t

-- A whole number of microseconds is scaled and divided without loss, and is its own rounding.
pub quot-scale : (q : ℤ) → quot 1000 (scale 1000 q) ≡ q
quot-scale (pos n) = ap pos (omega arith)
quot-scale (negsuc n) =
    let e : suc (n * 1000 + 1000 - 1) / 1000 ≡ suc n = omega arith in rw e (ground arith)

sub_ℕ-pos : (a b : ℕ) → b ≤ a → sub_ℕ a b ≡ pos (a - b)
sub_ℕ-pos a b h = ground arith

sub_ℕ-negsuc : (a b : ℕ) → a < b → sub_ℕ a b ≡ negsuc (b - a - 1)
sub_ℕ-negsuc a b h = ground arith

pub round_micros-scale : (q : ℤ) → round_micros (scale 1000 q) ≡ scale 1000 q
round_micros-scale (pos n) =
    ap (λ z. scale 1000 (floor_div 1000 z)) (sub_ℕ-pos (n * 1000 + 500) 0 (omega arith))
    ∙ ap pos (omega arith)
round_micros-scale (negsuc n) =
    ap (λ z. scale 1000 (floor_div 1000 z))
      (sub_ℕ-negsuc 500 (suc (n * 1000 + 1000 - 1) + 0) (omega arith))
    ∙ ap negsuc (omega arith)

-- An instant that fits an int64 of nanoseconds is not the zero time.
pub round-Fits-is_zero : (t : ℤ) → Fits w64 (round_micros t) → is_zero t ≡ false
round-Fits-is_zero (pos n) f = refl
round-Fits-is_zero (negsuc n) f = elim (Bool-cases (n == 62135596799999999999)) [
  | inl e ↦
      let same : n ≡ 62135596799999999999 = ground arith in
      let out : Fits w64 (round_micros zero_time) = rw same at f in absurd (omega arith)
  | inr e ↦ e
]

-- What is sent for an instant of that kind, scaled back, is its microsecond.
pub of_micros_lem : (q : ℤ) → Fits w64 (scale 1000 q) → eqb_ℤ q min_int64 ≡ false
of_micros_lem (pos n) f = refl
of_micros_lem (negsuc n) f = ground arith
