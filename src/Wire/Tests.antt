-- ===== src/Wire/Tests.antt =====
-- The theorems about the encoder and the decoder at concrete values (wire/encoder.go,
-- wire/decoder.go).
use voltdb_client_go.Common.{ℕ, ◌≡◌, arith, pos, negsuc, List, [], ◌∷◌, length, ok}
use voltdb_client_go.Wire.Value.{Scalar, Value, Values}
use voltdb_client_go.Wire.Instant.{round_micros}
use voltdb_client_go.Wire.Encoder
use voltdb_client_go.Wire.Encoder.{Encoder, marshal}
use voltdb_client_go.Wire.Encoder.Format.{format}
use voltdb_client_go.Wire.Encoder.Marshal.{marshal-format}
use voltdb_client_go.Wire.Decoder
use voltdb_client_go.Wire.Decoder.RoundTrip.{Agree, decode-encode_fixed, decode-encode_time}

abbrev used_encoder : Encoder
used_encoder = record { buf = 1 ∷ 2 ∷ []; tmp = [] }

-- []interface{}{int32(5), &"ab", a time}
abbrev mixed : Value
mixed = Value.slice (
    Values.cons (Value.scalar (Scalar.int32 (pos 5))) (
      Values.cons (Value.ptr (Value.scalar (Scalar.string (b'a' ∷ b'b' ∷ []))))
        (Values.cons (Value.time (pos 1500)) Values.none)))

marshal-format_example :
    (t : List ℕ) × (marshal mixed used_encoder
      ≡ ok (length (format mixed)) (record { buf = 1 ∷ 2 ∷ format mixed; tmp = t }))
marshal-format_example = marshal-format mixed used_encoder (tt, (tt, (tt, tt)))

decode-encode_fixed_example :
    Agree (Encoder.byte (negsuc 127)) Decoder.byte (negsuc 127)
    × Agree (Encoder.int16 (pos 300)) Decoder.int16 (pos 300)
    × Agree (Encoder.int32 (negsuc 70000)) Decoder.int32 (negsuc 70000)
    × Agree (Encoder.int64 (pos 5)) Decoder.int64 (pos 5)
    × Agree (Encoder.float64 4607182418800017408) Decoder.float64 4607182418800017408
decode-encode_fixed_example =
    decode-encode_fixed (negsuc 127) (pos 300) (negsuc 70000) (pos 5) 4607182418800017408
      (omega arith) (omega arith) (omega arith) (omega arith) (omega arith)

decode-encode_time_example :
    Agree (Encoder.time (negsuc 1600)) Decoder.time (round_micros (negsuc 1600))
decode-encode_time_example = decode-encode_time (negsuc 1600) (omega arith)
