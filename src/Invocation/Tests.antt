-- ===== src/Invocation/Tests.antt =====
-- The theorems about the serialized form of an invocation at concrete values
-- (voltdbclient/procedure_invocation.go).
use voltdb_client_go.Common.{
  ◌+◌, ℕ, ◌<◌, ◌≡◌, refl, arith, true, false, pos, negsuc, some, none, List, [], ◌∷◌, ◌++◌, length,
  ok, err, unknown_param,
}
use voltdb_client_go.Word.{get_uint, put_uint}
use voltdb_client_go.Wire.Value.{Scalar, Value, Values, count}
use voltdb_client_go.Wire.Encoder
use voltdb_client_go.Wire.Encoder.{Encoder}
use voltdb_client_go.Invocation.{ProcedureInvocation, encode_pi}
use voltdb_client_go.Invocation.Frame.{request_format, encode_pi-message}
use voltdb_client_go.Invocation.Faults.{encode_pi-slice_short, encode_pi-nil_truncated}

abbrev fresh_encoder : Encoder
fresh_encoder = record { buf = []; tmp = [] }

abbrev call : List Value → ProcedureInvocation
call params = record {
  handle = pos 7;
  is_query = true;
  query = b'V' ∷ b'o' ∷ b't' ∷ b'e' ∷ [];
  params = params;
  response_ch = some 1;
  timeout = pos 1000;
  arc = none;
  async = false;
  slen = negsuc 0;
}

abbrev plain_call : ProcedureInvocation
plain_call =
    call (
      Value.scalar (Scalar.int32 (negsuc 4))
      ∷ Value.bytes (1 ∷ 2 ∷ [])
      ∷ Value.time (pos 1000)
      ∷ [])

abbrev longs : Values
longs = Values.cons (Value.scalar (Scalar.int64 (pos 1))) (
    Values.cons (Value.scalar (Scalar.int64 (pos 2)))
      (Values.cons (Value.scalar (Scalar.int64 (pos 3))) Values.none))

abbrev slice_call : ProcedureInvocation
slice_call = call (Value.slice longs ∷ [])

abbrev nil_call : ProcedureInvocation
nil_call = call (Value.nil ∷ Value.scalar (Scalar.int8 (pos 1)) ∷ [])

encode_pi-message_example :
    (t : List ℕ) × (encode_pi plain_call fresh_encoder
      ≡ ok
          (record plain_call { slen = pos (length (request_format plain_call)) })
          (record { buf = Encoder.message (request_format plain_call); tmp = t }))
encode_pi-message_example = encode_pi-message plain_call fresh_encoder refl (tt, (tt, (tt, tt)))

encode_pi-slice_short_example :
    (n : ℕ) × (pi' : ProcedureInvocation) × (t : List ℕ) × (encode_pi slice_call fresh_encoder
      ≡ ok pi' (record { buf = put_uint 4 n ++ request_format slice_call; tmp = t }))
    × (n < length (request_format slice_call))
unfolding count
encode_pi-slice_short_example =
    encode_pi-slice_short slice_call longs fresh_encoder refl refl (tt, (tt, (tt, tt)))
      (omega arith)

encode_pi-nil_truncated_example :
    (b t : List ℕ) × (encode_pi nil_call fresh_encoder
      ≡ err unknown_param
          (record { buf = put_uint 4 (16 + length nil_call.query + 2) ++ b; tmp = t }))
    × (length b < get_uint (put_uint 4 (16 + length nil_call.query + 2)))
encode_pi-nil_truncated_example =
    encode_pi-nil_truncated nil_call (Value.scalar (Scalar.int8 (pos 1)) ∷ []) fresh_encoder refl
      refl (tt, tt) (omega arith)
