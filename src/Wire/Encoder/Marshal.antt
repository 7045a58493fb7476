-- ===== src/Wire/Encoder/Marshal.antt =====
-- The methods of Encoder (wire/encoder.go) append the bytes of the wire format.
use voltdb_client_go.Common.{
  ℕ, ◌+◌, ◌≡◌, refl, sym, Bool, true, false, ℤ, pos, List, [], ◌∷◌, ◌++◌, length, length-append,
  append-nil, append_assoc, ok, Outcome, M, ◌>>=◌, pure, Bool-cases, inl, inr,
}
use native.Mathlib.Nat.{add-zero, add_assoc}
use voltdb_client_go.Word.{
  unsigned, put_uint, wrap, w8, w16, w32, w64, put_uint16-wrap, put_uint32-wrap,
}
use voltdb_client_go.Wire.Instant.{is_zero}
use voltdb_client_go.Wire.Value.{Scalar, Value, Values, count}
use voltdb_client_go.Wire.Encoder.Format.{
  prefixed, bool_byte, scalar_format, micros, format, formats, IsMarshalable, AreMarshalable,
}
use voltdb_client_go.Wire.Encoder.{
  Encoder, write, byte, uint16, int16, uint32, int32, uint64, int64, float64, binary, bool, set_tmp,
  string, time, tagged, marshal_scalar, marshal_time, marshal_bytes, slice_header, marshal,
  marshal_elements,
}

-- `m` appends `bs` to the buffer and returns how many bytes that is. What it leaves in `tmp`
-- matters to nobody.
abbrev pub Writes : M Encoder ℕ → List ℕ → Type 0
Writes m bs =
    (e : Encoder) → (t : List ℕ) × (m e ≡ ok (length bs) (record { buf = e.buf ++ bs; tmp = t }))

pub Writes-write : (bs : List ℕ) → Writes (write bs) bs
unfolding write
Writes-write bs e = (e.tmp, refl)

-- Two writes in a row whose sizes are added.
pub Writes-seq :
    (m n : M Encoder ℕ) (bs cs : List ℕ)
    → Writes m bs
    → Writes n cs
    → Writes (m >>= λ a. n >>= λ b. pure (a + b)) (bs ++ cs)
Writes-seq m n bs cs h k e =
    let (t, p) = h e in
    let (u, q) = k (record { buf = e.buf ++ bs; tmp = t }) in
    (u, rw p (rw q (rw (length-append bs cs, append_assoc e.buf bs cs))))

pub Writes-byte : (v : ℤ) → Writes (byte v) (unsigned w8 v ∷ [])
unfolding byte
Writes-byte v = Writes-write _

pub Writes-int16 : (v : ℤ) → Writes (int16 v) (put_uint 2 (unsigned w16 v))
unfolding int16 uint16
Writes-int16 v = Writes-write _

pub Writes-int32 : (v : ℤ) → Writes (int32 v) (put_uint 4 (unsigned w32 v))
unfolding int32 uint32
Writes-int32 v = Writes-write _

pub Writes-int64 : (v : ℤ) → Writes (int64 v) (put_uint 8 (unsigned w64 v))
unfolding int64 uint64
Writes-int64 v = Writes-write _

pub Writes-float64 : (bits : ℕ) → Writes (float64 bits) (put_uint 8 bits)
unfolding float64 uint64
Writes-float64 bits = Writes-write _

pub Writes-binary : (b : List ℕ) → Writes (binary b) (prefixed b)
unfolding binary
Writes-binary b =
    Writes-seq _ _ (put_uint 4 (length b)) b
      (rw (put_uint32-wrap (length b)) at (Writes-int32 (wrap w32 (pos (length b)))))
      (Writes-write b)

pub Writes-string : (s : List ℕ) → Writes (string s) (prefixed s)
unfolding string set_tmp
Writes-string s e = Writes-binary s (record e { tmp = s })

Writes-bool : (b : Bool) → Writes (bool b) (bool_byte b ∷ [])
unfolding bool
Writes-bool true = Writes-byte (pos 1)
Writes-bool false = Writes-byte (pos 0)

pub Writes-time : (t : ℤ) → Writes (time t) (put_uint 8 (unsigned w64 (micros t)))
unfolding time
Writes-time t = elim (Bool-cases (is_zero t)) [
  | inl e ↦ rw e (Writes-int64 _)
  | inr e ↦ rw e (Writes-int64 _)
]

Writes-tagged :
    (c : ℤ) (m : M Encoder ℕ) (bs : List ℕ) → Writes m bs → Writes (tagged c m) (unsigned w8 c ∷ bs)
unfolding tagged
Writes-tagged c m bs h = Writes-seq (byte c) m (unsigned w8 c ∷ []) bs (Writes-byte c) h

Writes-marshal_scalar : (s : Scalar) → Writes (marshal_scalar s) (scalar_format s)
unfolding marshal_scalar
Writes-marshal_scalar (Scalar.bool b) = Writes-tagged _ _ (bool_byte b ∷ []) (Writes-bool b)
Writes-marshal_scalar (Scalar.int8 v) = Writes-tagged _ _ (unsigned w8 v ∷ []) (Writes-byte v)
Writes-marshal_scalar (Scalar.int16 v) =
    Writes-tagged _ _ (put_uint 2 (unsigned w16 v)) (Writes-int16 v)
Writes-marshal_scalar (Scalar.int32 v) =
    Writes-tagged _ _ (put_uint 4 (unsigned w32 v)) (Writes-int32 v)
Writes-marshal_scalar (Scalar.int64 v) =
    Writes-tagged _ _ (put_uint 8 (unsigned w64 v)) (Writes-int64 v)
Writes-marshal_scalar (Scalar.float64 v) = Writes-tagged _ _ (put_uint 8 v) (Writes-float64 v)
Writes-marshal_scalar (Scalar.string s) = Writes-tagged _ _ (prefixed s) (Writes-string s)

Writes-slice_header : (n : ℕ) → Writes (slice_header n) (157 ∷ put_uint 2 n)
unfolding slice_header
Writes-slice_header n =
    Writes-seq _ _ (157 ∷ []) (put_uint 2 n) (Writes-byte _)
      (rw (put_uint16-wrap n) at (Writes-int16 (wrap w16 (pos n))))

outcome_eq :
    {n m : ℕ} {b c : List ℕ} (t : List ℕ)
    → n ≡ m
    → b ≡ c
    → ◌≡◌ {A = Outcome Encoder ℕ}
        (ok n (record { buf = b; tmp = t }))
        (ok m (record { buf = c; tmp = t }))
outcome_eq t p q = λ i. ok (p i) (record { buf = q i; tmp = t })

marshal_time_lem : (t : ℤ) → Writes (marshal_time t) (11 ∷ put_uint 8 (unsigned w64 (micros t)))
unfolding marshal_time
marshal_time_lem t = Writes-tagged _ _ (put_uint 8 (unsigned w64 (micros t))) (Writes-time t)

marshal_bytes_lem : (b : List ℕ) → Writes (marshal_bytes b) (25 ∷ prefixed b)
unfolding marshal_bytes
marshal_bytes_lem b = Writes-tagged _ _ (prefixed b) (Writes-binary b)

mutual
  unfolding marshal

  Writes-marshal : (v : Value) → IsMarshalable v → Writes (marshal v) (format v)
  Writes-marshal Value.nil h = absurd h
  Writes-marshal (Value.scalar s) h = Writes-marshal_scalar s
  Writes-marshal (Value.named s) h = absurd h
  Writes-marshal (Value.time t) h = marshal_time_lem t
  Writes-marshal (Value.bytes b) h = marshal_bytes_lem b
  Writes-marshal (Value.slice vs) h = λ e.
      let header : List ℕ = 157 ∷ put_uint 2 (count vs) in
      let (t, p) = Writes-slice_header (count vs) e in
      let (u, q) =
        Writes-marshal_elements vs h (length header) (record { buf = e.buf ++ header; tmp = t }) in
      (
        u,
        rw p (
            rw q (
              outcome_eq u (sym (length-append header (formats vs)))
                (append_assoc e.buf header (formats vs)))),
      )
  Writes-marshal (Value.ptr v) h = Writes-marshal v h
  Writes-marshal Value.nil_ptr h = absurd h
  Writes-marshal Value.struct h = absurd h
  Writes-marshal Value.other h = absurd h

  Writes-marshal_elements :
      (vs : Values)
      → AreMarshalable vs
      → (size : ℕ) (e : Encoder)
      → (t : List ℕ) × (marshal_elements vs size e
          ≡ ok (size + length (formats vs)) (record { buf = e.buf ++ formats vs; tmp = t }))
  Writes-marshal_elements Values.none h size e = (e.tmp, rw (append-nil, add-zero))
  Writes-marshal_elements (Values.cons v vs) h size e =
      let (t, p) = Writes-marshal v h.0 e in
      let (u, q) =
        Writes-marshal_elements vs h.1 (size + length (format v))
          (record { buf = e.buf ++ format v; tmp = t }) in
      (u, rw p (rw q (rw (append_assoc, length-append, add_assoc))))

-- `Marshal` of a value that has a format succeeds, appends exactly the bytes of the format and
-- returns their number.
pub marshal-format :
    (v : Value) (e : Encoder)
    → IsMarshalable v
    → (t : List ℕ) × (marshal v e
        ≡ ok (length (format v)) (record { buf = e.buf ++ format v; tmp = t }))
marshal-format v e h = Writes-marshal v h e

-- `m` appends `bs` and answers `a`.
abbrev pub Appends : {A : Type 0} → M Encoder A → List ℕ → A → Type 0
Appends m bs a = (e : Encoder) → (t : List ℕ) × (m e ≡ ok a (record { buf = e.buf ++ bs; tmp = t }))

pub Appends-seq :
    {A B : Type 0} (m : M Encoder A) (f : A → M Encoder B) (bs cs : List ℕ) (a : A) (b : B)
    → Appends m bs a
    → Appends (f a) cs b
    → Appends (m >>= f) (bs ++ cs) b
Appends-seq m f bs cs a b h k e =
    let (t, p) = h e in
    let (u, q) = k (record { buf = e.buf ++ bs; tmp = t }) in (u, rw p (rw q (rw append_assoc)))
