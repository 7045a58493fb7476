-- ===== src/Wire/Decoder/RoundTrip.antt =====
-- What the Encoder of wire/encoder.go writes, the Decoder of wire/decoder.go reads back.
use voltdb_client_go.Common.{
  ℕ, ◌<◌, ◌^◌, ◌≡◌, ap, ◌∙◌, arith, ℤ, pos, negsuc, ◌+ℤ◌, List, [], ◌∷◌, ◌++◌, length, ok, err,
  panic, M, Outcome,
}
use voltdb_client_go.Word.{
  unsigned, wrap, put_uint, w8, w16, w32, w64, min_int64, Fits, signed-unsigned,
}
use voltdb_client_go.Wire.Instant.{
  zero_time, scale, floor_div, quot, round_micros, round-Fits-is_zero, of_micros_lem, quot-scale,
  round_micros-scale,
}
use voltdb_client_go.Wire.Encoder
use voltdb_client_go.Wire.Encoder.{Encoder}
use voltdb_client_go.Wire.Encoder.Format.{prefixed, micros}
use voltdb_client_go.Wire.Encoder.Marshal.{
  Writes, Writes-byte, Writes-int16, Writes-int32, Writes-int64, Writes-float64, Writes-string,
  Writes-time,
}
use voltdb_client_go.Wire.Source.{Source, buffer}
use voltdb_client_go.Wire.Decoder
use voltdb_client_go.Wire.Decoder.{of_micros}
use voltdb_client_go.Wire.Decoder.Reads.{
  Reads, Reads-run, Reads-byte, Reads-int16, Reads-int32, Reads-int64, Reads-uint64, Reads-string,
  Reads-message,
}

-- The bytes that one call appends to a fresh encoder.
abbrev pub written : Outcome Encoder ℕ → List ℕ
written (ok n e) = e.buf
written (err x e) = e.buf
written panic = []

unfoldable pub encoded : M Encoder ℕ → List ℕ
unfolding Encoder.new_encoder
encoded m = written (m Encoder.new_encoder)

encoded_lem : (m : M Encoder ℕ) (bs : List ℕ) → Writes m bs → encoded m ≡ bs
unfolding encoded
encoded_lem m bs w = let (t, p) = w (record { buf = []; tmp = [] }) in rw p

-- A value that one method writes and another reads back comes through unchanged.
abbrev pub Agree : {A : Type 0} → M Encoder ℕ → M Source A → A → Type 0
Agree m d a = (rest : List ℕ) → d (buffer (encoded m ++ rest)) ≡ ok a (buffer rest)

Agree-of :
    {A : Type 0} (m : M Encoder ℕ) (d : M Source A) (bs : List ℕ) (a : A)
    → Writes m bs
    → Reads d bs a
    → Agree m d a
Agree-of m d bs a w r rest = rw (encoded_lem m bs w) (Reads-run d bs a r rest)

pub byte-byte : (v : ℤ) → Fits w8 v → Agree (Encoder.byte v) Decoder.byte v
byte-byte v f =
    Agree-of (Encoder.byte v) Decoder.byte (unsigned w8 v ∷ []) v (Writes-byte v) (Reads-byte v f)

pub int16-int16 : (v : ℤ) → Fits w16 v → Agree (Encoder.int16 v) Decoder.int16 v
int16-int16 v f =
    Agree-of (Encoder.int16 v) Decoder.int16 (put_uint 2 (unsigned w16 v)) v (Writes-int16 v)
      (Reads-int16 v f)

pub int32-int32 : (v : ℤ) → Fits w32 v → Agree (Encoder.int32 v) Decoder.int32 v
int32-int32 v f =
    Agree-of (Encoder.int32 v) Decoder.int32 (put_uint 4 (unsigned w32 v)) v (Writes-int32 v)
      (Reads-int32 v f)

pub int64-int64 : (v : ℤ) → Fits w64 v → Agree (Encoder.int64 v) Decoder.int64 v
int64-int64 v f =
    Agree-of (Encoder.int64 v) Decoder.int64 (put_uint 8 (unsigned w64 v)) v (Writes-int64 v)
      (Reads-int64 v f)

pub float64-float64 : (v : ℕ) → v < w64 → Agree (Encoder.float64 v) Decoder.float64 v
unfolding Decoder.float64
float64-float64 v f =
    Agree-of (Encoder.float64 v) Decoder.float64 (put_uint 8 v) v (Writes-float64 v)
      (Reads-uint64 v f)

-- Each fixed-size type of the protocol survives an encoding followed by a decoding, at every value
-- of the Go type and whatever bytes follow.
pub decode-encode_fixed :
    (a b c d : ℤ) (bits : ℕ)
    → Fits w8 a
    → Fits w16 b
    → Fits w32 c
    → Fits w64 d
    → bits < w64
    → Agree (Encoder.byte a) Decoder.byte a
      × Agree (Encoder.int16 b) Decoder.int16 b
      × Agree (Encoder.int32 c) Decoder.int32 c
      × Agree (Encoder.int64 d) Decoder.int64 d
      × Agree (Encoder.float64 bits) Decoder.float64 bits
decode-encode_fixed a b c d bits fa fb fc fd fe =
    (byte-byte a fa, int16-int16 b fb, int32-int32 c fc, int64-int64 d fd, float64-float64 bits fe)

-- A string of less than 2 ^ 31 bytes is read back from its length prefix and its bytes.
pub decode-encode_string :
    (s : List ℕ) → length s < 2 ^ 31 → Agree (Encoder.string s) Decoder.string s
decode-encode_string s h =
    Agree-of (Encoder.string s) Decoder.string (prefixed s) s (Writes-string s) (Reads-string s h)

-- `Message` puts a size before its bytes by which the decoder's Message finds their end.
pub decode-encode_message :
    (b rest : List ℕ)
    → length b < 2 ^ 31
    → Decoder.message (buffer (Encoder.message b ++ rest)) ≡ ok b (buffer rest)
unfolding Encoder.message
decode-encode_message b rest h = Reads-run Decoder.message (prefixed b) b (Reads-message b h) rest

Fits-wrap : (v : ℤ) → Fits w64 v → wrap w64 v ≡ v
Fits-wrap v f = signed-unsigned 9223372036854775808 v f

scale-Fits : (q : ℤ) → Fits w64 (scale 1000 q) → Fits w64 q
scale-Fits (pos n) f = omega arith
scale-Fits (negsuc n) f = omega arith

-- What is sent for a nonzero instant is its number of microseconds.
micros_lem : (t : ℤ) → Fits w64 (round_micros t) → micros t ≡ floor_div 1000 (t +ℤ pos 500)
micros_lem t f =
    rw (round-Fits-is_zero t f)
      (ap (quot 1000) (Fits-wrap (round_micros t) f) ∙ quot-scale (floor_div 1000 (t +ℤ pos 500)))

of_micros-scale : (q : ℤ) → Fits w64 (scale 1000 q) → of_micros q ≡ scale 1000 q
of_micros-scale q f =
    rw (of_micros_lem q f) (ap round_micros (Fits-wrap (scale 1000 q) f) ∙ round_micros-scale q)

micros-Fits : (t : ℤ) → Fits w64 (round_micros t) → Fits w64 (micros t)
micros-Fits t f = rw (micros_lem t f) (scale-Fits (floor_div 1000 (t +ℤ pos 500)) f)

-- An instant is read back rounded to its microsecond, if the rounded instant fits UnixNano.
pub decode-encode_time :
    (t : ℤ) → Fits w64 (round_micros t) → Agree (Encoder.time t) Decoder.time (round_micros t)
unfolding Decoder.time
decode-encode_time t f =
    Agree-of (Encoder.time t) Decoder.time (put_uint 8 (unsigned w64 (micros t))) (round_micros t)
      (Writes-time t)
      λ s rest q. rw (Reads-int64 (micros t) (micros-Fits t f) s rest q) (
        ap (λ z. ok z (buffer rest))
          (ap of_micros (micros_lem t f) ∙ of_micros-scale (floor_div 1000 (t +ℤ pos 500)) f))

-- The zero time is sent as the null timestamp and read back as the zero time.
pub decode-encode_zero_time : Agree (Encoder.time zero_time) Decoder.time zero_time
unfolding Decoder.time
decode-encode_zero_time =
    Agree-of (Encoder.time zero_time) Decoder.time (put_uint 8 (unsigned w64 min_int64)) zero_time
      (Writes-time zero_time) λ s rest q. rw (Reads-int64 min_int64 (omega arith) s rest q)
