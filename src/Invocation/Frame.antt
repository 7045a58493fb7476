-- ===== src/Invocation/Frame.antt =====
-- EncodePI (voltdbclient/network_writer.go) writes one message whose size prefix is right.
use voltdb_client_go.Common.{
  ℕ, ◌+◌, ◌≡◌, refl, sym, ap, ◌∙◌, arith, pos, negsuc, some, List, [], ◌∷◌, ◌++◌, length, All,
  length-append, append-nil, ok, ◌>>◌, pure,
}
use voltdb_client_go.Word.{
  unsigned, wrap, w16, w32, w64, put_uint, put_uint16-wrap, put_uint32-wrap,
}
use voltdb_client_go.Wire.Value.{Scalar, Value}
use voltdb_client_go.Wire.Encoder
use voltdb_client_go.Wire.Encoder.{Encoder}
use voltdb_client_go.Wire.Encoder.Format.{prefixed, format, scalar_format, IsMarshalable}
use voltdb_client_go.Wire.Encoder.Marshal.{
  Writes-byte, Writes-int16, Writes-int32, Writes-int64, Writes-string, Appends, Appends-seq,
  marshal-format,
}
use voltdb_client_go.Invocation.{
  ProcedureInvocation, scalar_len, calc_param_len, add_param_lens, calc_len, get_len, encode_body,
  encode_pi,
}

-- The parameters that a driver passes: scalars, times and byte slices.
abbrev pub IsPlain : Value → Type 0
IsPlain (Value.scalar s) = Unit {0}
IsPlain (Value.time t) = Unit {0}
IsPlain (Value.bytes b) = Unit {0}
IsPlain _ = ⊥

abbrev pub all_formats : List Value → List ℕ
all_formats [] = []
all_formats (v ∷ vs) = format v ++ all_formats vs

-- The wire form of a request: batch timeout type, procedure name, handle, parameters.
abbrev pub request_format : ProcedureInvocation → List ℕ
request_format pi =
    0
    ∷ (prefixed pi.query
        ++ (put_uint 8 (unsigned w64 pi.handle)
            ++ (put_uint 2 (length pi.params) ++ all_formats pi.params)))

length-prefixed : (b : List ℕ) → length (prefixed b) ≡ 4 + length b
length-prefixed b = omega arith

scalar_len-format : (s : Scalar) → scalar_len s ≡ length (scalar_format s)
unfolding scalar_len
scalar_len-format (Scalar.string s) = omega arith
scalar_len-format _ = refl

-- The computed length of a plain parameter is the number of bytes that Marshal appends for it.
pub calc_param_len-format : (v : Value) → IsPlain v → calc_param_len v ≡ some (length (format v))
unfolding calc_param_len
calc_param_len-format Value.nil h = absurd h
calc_param_len-format (Value.scalar s) h = ap some (scalar_len-format s)
calc_param_len-format (Value.named s) h = absurd h
calc_param_len-format (Value.time t) h = refl
calc_param_len-format (Value.bytes b) h = ap some (omega arith)
calc_param_len-format (Value.slice vs) h = absurd h
calc_param_len-format (Value.ptr v) h = absurd h
calc_param_len-format Value.nil_ptr h = absurd h
calc_param_len-format Value.struct h = absurd h
calc_param_len-format Value.other h = absurd h

pub add_param_lens-format :
    (n : ℕ) (vs : List Value)
    → All IsPlain vs
    → add_param_lens n vs ≡ some (n + length (all_formats vs))
unfolding add_param_lens
add_param_lens-format n [] h = ap some (omega arith)
add_param_lens-format n (v ∷ vs) (hv, hvs) =
    rw (calc_param_len-format v hv, add_param_lens)
      (add_param_lens-format (n + length (format v)) vs hvs
        ∙ ap some (omega (arith, length-append (format v) (all_formats vs))))

pub length-request_format :
    (pi : ProcedureInvocation)
    → length (request_format pi) ≡ 15 + length pi.query + length (all_formats pi.params)
length-request_format pi =
    let payload : List ℕ =
      put_uint 8 (unsigned w64 pi.handle)
      ++ (put_uint 2 (length pi.params) ++ all_formats pi.params) in
    omega (arith, length-append (prefixed pi.query) payload)

-- calcLen is the length of the request.
pub calc_len-format :
    (pi : ProcedureInvocation)
    → All IsPlain pi.params
    → calc_len pi ≡ some (length (request_format pi))
unfolding calc_len
calc_len-format pi h =
    add_param_lens-format (15 + length pi.query) pi.params h
    ∙ ap some (sym (length-request_format pi))

IsPlain-IsMarshalable : (v : Value) → IsPlain v → IsMarshalable v
IsPlain-IsMarshalable Value.nil h = absurd h
IsPlain-IsMarshalable (Value.scalar s) h = tt
IsPlain-IsMarshalable (Value.named s) h = absurd h
IsPlain-IsMarshalable (Value.time t) h = tt
IsPlain-IsMarshalable (Value.bytes b) h = tt
IsPlain-IsMarshalable (Value.slice vs) h = absurd h
IsPlain-IsMarshalable (Value.ptr v) h = absurd h
IsPlain-IsMarshalable Value.nil_ptr h = absurd h
IsPlain-IsMarshalable Value.struct h = absurd h
IsPlain-IsMarshalable Value.other h = absurd h

pub Appends-marshal_all :
    (vs : List Value) → All IsMarshalable vs → Appends (Encoder.marshal_all vs) (all_formats vs) tt
unfolding Encoder.marshal_all
Appends-marshal_all [] h e = (e.tmp, rw append-nil)
Appends-marshal_all (v ∷ vs) (hv, hvs) e =
    Appends-seq (Encoder.marshal v) (λ _. Encoder.marshal_all vs) (format v) (all_formats vs)
      (length (format v)) tt (λ e'. marshal-format v e' hv) (Appends-marshal_all vs hvs) e

pub Appends-encode_body :
    (pi : ProcedureInvocation)
    → All IsMarshalable pi.params
    → Appends (encode_body pi) (request_format pi) tt
unfolding encode_body
Appends-encode_body pi h = Appends-seq _ _ (0 ∷ []) _ 1 tt (Writes-byte (pos 0)) (
    Appends-seq _ _ (prefixed pi.query) _ (length (prefixed pi.query)) tt (Writes-string pi.query) (
      Appends-seq _ _ (put_uint 8 (unsigned w64 pi.handle)) _ 8 tt (Writes-int64 pi.handle) (
        Appends-seq _ _ (put_uint 2 (length pi.params)) _ 2 tt
          (rw (put_uint16-wrap (length pi.params)) at
            (Writes-int16 (wrap w16 (pos (length pi.params)))))
          (Appends-marshal_all pi.params h))))

All-map : (vs : List Value) → All IsPlain vs → All IsMarshalable vs
All-map [] h = tt
All-map (v ∷ vs) (hv, hvs) = (IsPlain-IsMarshalable v hv, All-map vs hvs)

-- The first call computes the length and keeps it.
pub get_len-fresh :
    (pi : ProcedureInvocation) (n : ℕ)
    → pi.slen ≡ negsuc 0
    → calc_len pi ≡ some n
    → get_len pi ≡ ok (pos n) (record pi { slen = pos n })
unfolding get_len
get_len-fresh pi n s c = ground arith

-- The size prefix is the computed length, whatever the request is.
pub encode_pi-declared :
    (pi : ProcedureInvocation) (n : ℕ) (e : Encoder)
    → pi.slen ≡ negsuc 0
    → calc_len pi ≡ some n
    → All IsMarshalable pi.params
    → (t : List ℕ) × (encode_pi pi e
        ≡ ok
            (record pi { slen = pos n })
            (record { buf = e.buf ++ (put_uint 4 n ++ request_format pi); tmp = t }))
unfolding encode_pi
encode_pi-declared pi n e s c h =
    let pi' : ProcedureInvocation = record pi { slen = pos n } in
    let (t, p) =
      Appends-seq (Encoder.int32 (wrap w32 (pos n))) (λ _. encode_body pi >> pure pi')
        (put_uint 4 n) (request_format pi) 4 pi'
        (rw (put_uint32-wrap n) at (Writes-int32 (wrap w32 (pos n))))
        (λ e'. let (u, q) = Appends-encode_body pi h e' in (u, rw q)) e in
    (t, rw (get_len-fresh pi n s c, encode_pi) p)

-- A fresh invocation of plain parameters is encoded as one message: the size prefix is the number
-- of the bytes behind it, and these are the request. The invocation keeps that size in `slen`.
pub encode_pi-message :
    (pi : ProcedureInvocation) (e : Encoder)
    → pi.slen ≡ negsuc 0
    → All IsPlain pi.params
    → (t : List ℕ) × (encode_pi pi e
        ≡ ok
            (record pi { slen = pos (length (request_format pi)) })
            (record { buf = e.buf ++ Encoder.message (request_format pi); tmp = t }))
unfolding Encoder.message
encode_pi-message pi e s h =
    encode_pi-declared pi (length (request_format pi)) e s (calc_len-format pi h)
      (All-map pi.params h)
