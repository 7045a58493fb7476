-- ===== src/Invocation/Faults.antt =====
-- Two kinds of parameters for which the size prefix that EncodePI (voltdbclient/network_writer.go)
-- writes is not the size of what follows.
use voltdb_client_go.Common.{
  ℕ, ◌+◌, ◌*◌, ◌<◌, ◌≤◌, ◌≡◌, ap, ◌∙◌, sym, subst, arith, pos, negsuc, some, List, [], ◌∷◌, ◌++◌,
  length, All, length-append, append-nil, append_assoc, ok, err, Error, unknown_param, M, ◌>>=◌,
  ◌>>◌, pure,
}
use voltdb_client_go.Word.{
  unsigned, wrap, w16, w32, w64, put_uint, put_uint16-wrap, put_uint32-wrap, get_uint,
  get-put_uint32,
}
use voltdb_client_go.Wire.Value.{Scalar, Value, Values, count}
use voltdb_client_go.Wire.Encoder
use voltdb_client_go.Wire.Encoder.{Encoder}
use voltdb_client_go.Wire.Encoder.Format.{prefixed, format, formats, AreMarshalable, IsMarshalable}
use voltdb_client_go.Wire.Encoder.Marshal.{
  Writes-byte, Writes-int16, Writes-int32, Writes-int64, Writes-string, Appends,
}
use voltdb_client_go.Invocation.{
  ProcedureInvocation, calc_param_len, add_param_lens, calc_len, encode_body, encode_pi,
}
use voltdb_client_go.Invocation.Frame.{
  IsPlain, all_formats, request_format, encode_pi-declared, get_len-fresh, add_param_lens-format,
  length-request_format,
}

-- What has a format takes two bytes at least.
length-format : (v : Value) → IsMarshalable v → 2 ≤ length (format v)
length-format Value.nil h = absurd h
length-format (Value.scalar (Scalar.string s)) h = omega arith
length-format (Value.scalar (Scalar.bool b)) h = omega arith
length-format (Value.scalar _) h = omega arith
length-format (Value.named s) h = absurd h
length-format (Value.time t) h = omega arith
length-format (Value.bytes b) h = omega arith
length-format (Value.slice vs) h = omega arith
length-format (Value.ptr v) h = length-format v h
length-format Value.nil_ptr h = absurd h
length-format Value.struct h = absurd h
length-format Value.other h = absurd h

length-formats : (vs : Values) → AreMarshalable vs → 2 * count vs ≤ length (formats vs)
unfolding count
length-formats Values.none h = omega arith
length-formats (Values.cons v vs) (hv, hvs) =
    omega (arith, length-append (format v) (formats vs), length-format v hv, length-formats vs hvs)

-- Let an invocation that has not been measured have one parameter, a slice other than a byte slice of
-- three elements or more, all of which Marshal takes. EncodePI succeeds, and the size that it writes
-- is less than the number of bytes behind it.
pub encode_pi-slice_short :
    (pi : ProcedureInvocation) (vs : Values) (e : Encoder)
    → pi.slen ≡ negsuc 0
    → pi.params ≡ Value.slice vs ∷ []
    → AreMarshalable vs
    → 3 ≤ count vs
    → (n : ℕ) × (pi' : ProcedureInvocation) × (t : List ℕ) × (encode_pi pi e
        ≡ ok pi' (record { buf = e.buf ++ (put_uint 4 n ++ request_format pi); tmp = t }))
      × (n < length (request_format pi))
encode_pi-slice_short pi vs e s p h k =
    let n : ℕ = 15 + length pi.query + (5 + count vs) in
    let c : calc_len pi ≡ some n = unfold calc_len add_param_lens calc_param_len in rw p in
    let (t, q) = encode_pi-declared pi n e s c (rw p (h, tt)) in
    (
      n,
      record pi { slen = pos n },
      t,
      q,
      omega (
        arith,
        length-request_format pi,
        ap (λ x. length (all_formats x)) p,
        ap length (append-nil (format (Value.slice vs))),
        length-formats vs h,
        length-append (put_uint 2 (count vs)) (formats vs),
      ),
    )

-- `m` appends `bs` and then returns the error `x`.
abbrev Stops : {A : Type 0} → M Encoder A → List ℕ → Error → Type 0
Stops m bs x = (e : Encoder) → (t : List ℕ) × (m e ≡ err x (record { buf = e.buf ++ bs; tmp = t }))

Stops-seq :
    {A B : Type 0} (m : M Encoder A) (f : A → M Encoder B) (bs cs : List ℕ) (a : A) (x : Error)
    → Appends m bs a
    → Stops (f a) cs x
    → Stops (m >>= f) (bs ++ cs) x
Stops-seq m f bs cs a x h k e =
    let (t, p) = h e in
    let (u, q) = k (record { buf = e.buf ++ bs; tmp = t }) in (u, rw p (rw q (rw append_assoc)))

Stops-first :
    {A B : Type 0} (m : M Encoder A) (f : A → M Encoder B) (bs : List ℕ) (x : Error)
    → Stops m bs x
    → Stops (m >>= f) bs x
Stops-first m f bs x h e = let (t, p) = h e in (t, rw p)

Stops-nil : (vs : List Value) → Stops (Encoder.marshal_all (Value.nil ∷ vs)) [] unknown_param
unfolding Encoder.marshal_all Encoder.marshal
Stops-nil vs e = (e.tmp, rw append-nil)

-- What is written before the parameters.
header_format : ProcedureInvocation → List ℕ
header_format pi =
    0
    ∷ (prefixed pi.query
        ++ (put_uint 8 (unsigned w64 pi.handle) ++ (put_uint 2 (length pi.params) ++ [])))

Stops-encode_body :
    (pi : ProcedureInvocation) (vs : List Value)
    → pi.params ≡ Value.nil ∷ vs
    → Stops (encode_body pi) (header_format pi) unknown_param
unfolding encode_body header_format
Stops-encode_body pi vs p = Stops-seq _ _ (0 ∷ []) _ 1 unknown_param (Writes-byte (pos 0)) (
    Stops-seq _ _ (prefixed pi.query) _ (length (prefixed pi.query)) unknown_param
      (Writes-string pi.query)
      (Stops-seq _ _ (put_uint 8 (unsigned w64 pi.handle)) _ 8 unknown_param
        (Writes-int64 pi.handle)
        (Stops-seq _ _ (put_uint 2 (length pi.params)) [] 2 unknown_param
          (rw (put_uint16-wrap (length pi.params)) at
            (Writes-int16 (wrap w16 (pos (length pi.params)))))
          (rw p (Stops-nil vs)))))

length-header_format : (pi : ProcedureInvocation) → length (header_format pi) ≡ 15 + length pi.query
unfolding header_format
length-header_format pi =
    let payload : List ℕ =
      put_uint 8 (unsigned w64 pi.handle) ++ (put_uint 2 (length pi.params) ++ []) in
    omega (arith, length-append (prefixed pi.query) payload)

-- Let an invocation that has not been measured have nil as its first parameter and plain values as
-- the others, with a size in all that fits in 32 bits. EncodePI returns errUnknownParam, and leaves in
-- the encoder a message that is shorter than its size prefix says, which is the size of the whole.
pub encode_pi-nil_truncated :
    (pi : ProcedureInvocation) (vs : List Value) (e : Encoder)
    → pi.slen ≡ negsuc 0
    → pi.params ≡ Value.nil ∷ vs
    → All IsPlain vs
    → 16 + length pi.query + length (all_formats vs) < w32
    → (b t : List ℕ) × (encode_pi pi e
        ≡ err unknown_param (record {
          buf = e.buf ++ (put_uint 4 (16 + length pi.query + length (all_formats vs)) ++ b);
          tmp = t;
        }))
      × (length b < get_uint (put_uint 4 (16 + length pi.query + length (all_formats vs))))
unfolding encode_pi
encode_pi-nil_truncated pi vs e s p h fits =
    let n : ℕ = 16 + length pi.query + length (all_formats vs) in
    let pi' : ProcedureInvocation = record pi { slen = pos n } in
    let c : calc_len pi ≡ some n =
      unfold calc_len add_param_lens calc_param_len in
      rw p (add_param_lens-format (15 + length pi.query + 1) vs h ∙ ap some (omega arith)) in
    let (t, q) =
      Stops-seq (Encoder.int32 (wrap w32 (pos n))) (λ _. encode_body pi >> pure pi') (put_uint 4 n)
        (header_format pi) 4 unknown_param
        (rw (put_uint32-wrap n) at (Writes-int32 (wrap w32 (pos n))))
        (Stops-first (encode_body pi) (λ _. pure pi') (header_format pi) unknown_param
          (Stops-encode_body pi vs p))
        e in
    (
      header_format pi,
      t,
      rw (get_len-fresh pi n s c, encode_pi) q,
      subst (λ k. length (header_format pi) < k) (sym (get-put_uint32 n fits))
          (omega (arith, length-header_format pi)),
    )
