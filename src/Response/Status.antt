-- ===== src/Response/Status.antt =====
-- The front of a response: decodeResponse (voltdbclient/response.go) on each kind of status.
use voltdb_client_go.Common.{
  ℕ, ◌<◌, ◌^◌, ◌/◌, ◌%◌, ◌==◌, ◌||◌, ◌≡◌, refl, ◌∙◌, ap, arith, Bool-cases, ok, Bool, false, inl,
  inr, ◌≢◌, if◌then◌else◌, ℤ, pos, negsuc, eqb_ℤ, ltb_ℤ, not, ◌&&◌, List, [], ◌∷◌, ◌++◌, length,
  bad_status, M,
}
use voltdb_client_go.Word.{unsigned, put_uint, w8, w32, Fits}
use voltdb_client_go.Wire.Encoder.Format.{prefixed}
use voltdb_client_go.Wire.Source.{Source, buffer}
use voltdb_client_go.Wire.Decoder
use voltdb_client_go.Wire.Decoder.Reads.{Reads, Reads-byte, Reads-string}
use voltdb_client_go.Response.{
  VoltResponseInfo, Reply, good, bad, crash, R, attempt, decode_response, has_name, field_present,
  optional_string, bad_status_reply, success, empty_volt_response_info,
}

eqb-ne : (a b : ℤ) → a ≢ b → eqb_ℤ a b ≡ false
eqb-ne a b h = ground arith

-- A part of a response that can be read is passed on.
attempt_lem :
    {A B : Type 0} (info : VoltResponseInfo) (m : M Source A) (k : A → R B) (bs : List ℕ) (a : A)
    → Reads m bs a
    → (rest : List ℕ) → attempt info m k (buffer (bs ++ rest)) ≡ k a (buffer rest)
attempt_lem info m k bs a r rest = rw (r (buffer (bs ++ rest)) rest refl)

-- The status byte and the application status byte, round-trip time and number of tables.
abbrev pub ok_response : ℤ → ℤ → ℤ → ℕ → List ℕ
ok_response fields app_status rtt tables =
    unsigned w8 fields
    ∷ 1
    ∷ unsigned w8 app_status
    ∷ (put_uint 4 (unsigned w32 rtt) ++ put_uint 2 tables)

passes : ℤ → Bool
passes app_status = not (eqb_ℤ app_status (pos 0)) && not (eqb_ℤ app_status (negsuc 127))

-- The response is not taken for a success.
abbrev pub Fails : {A : Type 0} → Reply A → Type 0
Fails (good a s) = ⊥
Fails _ = Unit {0}

-- The codes besides that of a success for which there is a name: from -9 to -1, and -128.
abbrev pub is_named : ℤ → Bool
is_named v = eqb_ℤ v (negsuc 127) || (ltb_ℤ (negsuc 9) v && ltb_ℤ v (pos 0))

has_name_lem : (v : ℤ) → v ≢ success → has_name v ≡ is_named v
unfolding has_name
has_name_lem (pos n) h = ground arith
has_name_lem (negsuc n) h = ground arith

-- Bit 5 of the fields byte announces a status string.
abbrev pub announces : ℤ → Bool
announces fields = unsigned w8 fields / 32 % 2 == 1

-- The text of a failed response, and its bytes.
abbrev pub text_of : ℤ → List ℕ → List ℕ
text_of fields text = if announces fields then text else []

abbrev pub text_format : ℤ → List ℕ → List ℕ
text_format fields text = if announces fields then prefixed text else []

Reads-optional_string :
    (fields : ℤ) (text : List ℕ)
    → length text < 2 ^ 31
    → Reads
        (optional_string (field_present fields 32))
        (text_format fields text)
        (text_of fields text)
unfolding optional_string field_present
Reads-optional_string fields text h = elim (Bool-cases (announces fields)) [
  | inl e ↦ rw e (Reads-string text h)
  | inr e ↦ rw e (λ s rest q. ap (ok []) q)
]

-- A failed transaction: the reply is a VoltError with the status and the status string, shorter than
-- 2 ^ 31 bytes, which is there if bit 5 of the fields byte says so and is else empty; the reader
-- stands behind it. A status code other than -1 to -9 and -128 (and 1) has no name, and the client
-- crashes.
pub decode_response-failure :
    (handle fields status : ℤ) (text rest : List ℕ)
    → Fits w8 fields
    → Fits w8 status
    → status ≢ success
    → length text < 2 ^ 31
    → decode_response handle
        (buffer (unsigned w8 fields ∷ unsigned w8 status ∷ (text_format fields text ++ rest)))
      ≡ (if is_named status
          then bad
              (record {
                volt_response = empty_volt_response_info;
                error = bad_status status (text_of fields text);
              })
              (buffer rest)
          else crash)
unfolding decode_response bad_status_reply
decode_response-failure handle fields status text rest ff fs ns ft =
    attempt_lem _ Decoder.byte _ (unsigned w8 fields ∷ []) fields (Reads-byte fields ff)
      (unsigned w8 status ∷ (text_format fields text ++ rest))
    ∙ attempt_lem _ Decoder.byte _ (unsigned w8 status ∷ []) status (Reads-byte status fs)
        (text_format fields text ++ rest)
    ∙ rw (eqb-ne status success ns) (
        attempt_lem _ (optional_string (field_present fields 32)) _ (text_format fields text)
          (text_of fields text) (Reads-optional_string fields text ft) rest
        ∙ ap
            (λ b.
              if b
              then bad
                  (record {
                    volt_response = empty_volt_response_info;
                    error = bad_status status (text_of fields text);
                  })
                  (buffer rest)
              else crash)
            (has_name_lem status ns))
