-- ===== src/Word.antt =====
-- Go's fixed-width integers. An intN is an integer `ℤ` in range, a uintN a number below 2 ^ N; the
-- conversions between them and the wrapping operations are written out. Bytes are numbers, and
-- encoding/binary's BigEndian is a fixed number of base-256 digits, the highest first.
use voltdb_client_go.Common.{
  ℕ, zero, suc, ◌+◌, ◌-◌, ◌*◌, ◌/◌, ◌%◌, ◌^◌, ◌≤◌, ◌<◌, ◌≡◌, refl, arith, ltb, if◌then◌else◌, ℤ,
  pos, negsuc, lt→ltb, ge→ltb, List, [], ◌∷◌, length, All, ap, ◌∙◌, Bool-cases, inl, inr,
}
use mathlib.Core.Path.{ap₂}
use native.Mathlib.Nat.{mod-eq_of_lt, mod-lt}

-- `uintN(v)` of an integer, with `m = 2 ^ N`.
abbrev pub unsigned : ℕ → ℤ → ℕ
unsigned m (pos n) = n % m
unsigned m (negsuc n) = m - 1 - n % m

-- `intN(u)` of a number below `m = 2 ^ N`.
abbrev pub signed : ℕ → ℕ → ℤ
signed m u = if ltb u (m / 2) then pos u else negsuc (m - 1 - u)

-- An integer wrapped to intN.
abbrev pub wrap : ℕ → ℤ → ℤ
wrap m v = signed m (unsigned m v)

-- The values of intN.
abbrev pub Fits : ℕ → ℤ → Type 0
Fits m (pos n) = n < m / 2
Fits m (negsuc n) = n < m / 2

abbrev pub w8 : ℕ
w8 = 256

abbrev pub w16 : ℕ
w16 = 65536

abbrev pub w32 : ℕ
w32 = 4294967296

abbrev pub w64 : ℕ
w64 = 18446744073709551616

-- math.MinInt64
abbrev pub min_int64 : ℤ
min_int64 = negsuc 9223372036854775807

pub signed-unsigned : (h : ℕ) (v : ℤ) → Fits (2 * h) v → signed (2 * h) (unsigned (2 * h) v) ≡ v
signed-unsigned h (pos n) f =
    let e : n % (2 * h) ≡ n = mod-eq_of_lt (omega arith) in rw e (rw (lt→ltb n (2 * h / 2) f))
signed-unsigned h (negsuc n) f =
    let e : n % (2 * h) ≡ n = mod-eq_of_lt (omega arith) in
    rw (e, ge→ltb (2 * h - 1 - n) (2 * h / 2) (omega arith)) (ap negsuc (omega arith))

pub unsigned-lt : (m : ℕ) (v : ℤ) → 0 < m → unsigned m v < m
unsigned-lt m (pos n) h = omega arith
unsigned-lt m (negsuc n) h = omega arith

pub signed-Fits : (h u : ℕ) → u < 2 * h → Fits (2 * h) (signed (2 * h) u)
signed-Fits h u l = ground arith

-- endian.PutUintN: the `k` low bytes of `v`.
abbrev pub put_uint : ℕ → ℕ → List ℕ
put_uint zero v = []
put_uint (suc k) v = (v / 256 ^ k % 256) ∷ put_uint k v

-- endian.UintN
abbrev pub get_uint_from : ℕ → List ℕ → ℕ
get_uint_from acc [] = acc
get_uint_from acc (b ∷ bs) = get_uint_from (acc * 256 + b) bs

abbrev pub get_uint : List ℕ → ℕ
get_uint bs = get_uint_from 0 bs

pub length-put_uint : (k v : ℕ) → length (put_uint k v) ≡ k
length-put_uint zero v = refl
length-put_uint (suc k) v = ap suc (length-put_uint k v)

abbrev pub IsByte : ℕ → Type 0
IsByte b = b < 256

pub put_uint-IsByte : (k v : ℕ) → All IsByte (put_uint k v)
put_uint-IsByte zero v = tt
put_uint-IsByte (suc k) v = (mod-lt _ (omega arith), put_uint-IsByte k v)

pub get-put_uint16 : (v : ℕ) → v < w16 → get_uint (put_uint 2 v) ≡ v
get-put_uint16 v h = omega arith

pub get-put_uint32 : (v : ℕ) → v < w32 → get_uint (put_uint 4 v) ≡ v
get-put_uint32 v h = omega arith

pub get-put_uint64 : (v : ℕ) → v < w64 → get_uint (put_uint 8 v) ≡ v
get-put_uint64 v h = omega arith

pub unsigned-signed : (h u : ℕ) → u < 2 * h → unsigned (2 * h) (signed (2 * h) u) ≡ u
unsigned-signed h u l = elim (Bool-cases (ltb u (2 * h / 2))) [
  | inl e ↦ rw e (mod-eq_of_lt l)
  | inr e ↦
      let big : h ≤ u = ground arith in
      rw (e, mod-eq_of_lt {n = 2 * h - 1 - u} {m = 2 * h} (omega arith)) (omega arith)
]

-- Only the low bytes are put.
pub put_uint16-mod : (v : ℕ) → put_uint 2 (v % w16) ≡ put_uint 2 v
put_uint16-mod v = ap₂ ◌∷◌ (omega arith) (ap₂ ◌∷◌ (omega arith) refl)

pub put_uint32-mod : (v : ℕ) → put_uint 4 (v % w32) ≡ put_uint 4 v
put_uint32-mod v =
    ap₂ ◌∷◌ (omega arith)
      (ap₂ ◌∷◌ (omega arith) (ap₂ ◌∷◌ (omega arith) (ap₂ ◌∷◌ (omega arith) refl)))

-- A length put as an intN is the length put.
pub put_uint16-wrap : (n : ℕ) → put_uint 2 (unsigned w16 (wrap w16 (pos n))) ≡ put_uint 2 n
put_uint16-wrap n =
    ap (put_uint 2) (unsigned-signed 32768 (n % w16) (omega arith)) ∙ put_uint16-mod n

pub put_uint32-wrap : (n : ℕ) → put_uint 4 (unsigned w32 (wrap w32 (pos n))) ≡ put_uint 4 n
put_uint32-wrap n =
    ap (put_uint 4) (unsigned-signed 2147483648 (n % w32) (omega arith)) ∙ put_uint32-mod n

-- A length read back as an int32.
pub signed-get_uint : (n : ℕ) → n < 2 ^ 31 → signed w32 (get_uint (put_uint 4 n)) ≡ pos n
signed-get_uint n h = rw (get-put_uint32 n (omega arith)) (ground arith)
