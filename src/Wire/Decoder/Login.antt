-- ===== src/Wire/Decoder/Login.antt =====
-- The answer to a login (`Login` and `LoginInfo` of wire/decoder.go), which is read from a
-- bytes.Reader.
use voltdb_client_go.Common.{
  ℕ, suc, ◌+◌, ◌<◌, append-nil, subst, ◌^◌, ◌≡◌, refl, ap, ◌∙◌, arith, ℤ, pos, List, [], ◌∷◌, ◌++◌,
  length, take-append, drop-append, append_assoc, ok, err, M, ◌>>=◌, pure, bind, panic,
}
use voltdb_client_go.Word.{
  Fits, unsigned, signed, put_uint, get_uint, w8, w32, w64, signed-unsigned, unsigned-lt,
  get-put_uint32, get-put_uint64,
}
use voltdb_client_go.Wire.Encoder.Format.{prefixed}
use voltdb_client_go.Wire.Source.{Source, reader, conn, read, push_back}
use voltdb_client_go.Wire.Source.Segments.{Front}
use voltdb_client_go.Wire.Decoder.{
  read_array, byte, int32, uint32, int64, uint64, time, of_micros, string, read_string, ConnInfo,
  login_info, login, run_on,
}
use voltdb_client_go.Wire.Decoder.Reads.{padded_lem}
use voltdb_client_go.Wire.Decoder.Framing.{message-Front}

-- `m` takes the bytes `bs` off the front of a reader, whatever follows, and answers `a`.
abbrev Takes : {A : Type 0} → M Source A → List ℕ → A → Type 0
Takes m bs a = (rest : List ℕ) → m (reader (bs ++ rest)) ≡ ok a (reader rest)

Takes-array : (b : ℕ) (bs : List ℕ) → Takes (read_array (suc (length bs))) (b ∷ bs) (b ∷ bs)
unfolding read_array read
Takes-array b bs rest =
    rw (take-append bs rest, drop-append bs rest)
      (ap (λ x. ok (b ∷ x) (reader rest)) (padded_lem bs))

Takes-seq :
    {A B : Type 0} (m : M Source A) (f : A → M Source B) (bs cs : List ℕ) (a : A) (b : B)
    → Takes m bs a
    → Takes (f a) cs b
    → Takes (m >>= f) (bs ++ cs) b
Takes-seq m f bs cs a b h k rest = rw (append_assoc bs cs rest) (rw (h (cs ++ rest)) (k rest))

Takes-map :
    {A B : Type 0} (m : M Source A) (f : A → B) (bs : List ℕ) (a : A) (b : B)
    → Takes m bs a
    → f a ≡ b
    → Takes (m >>= λ x. pure (f x)) bs b
Takes-map m f bs a b h e rest = rw (h rest, e)

Takes-uint32 : (v : ℕ) → v < w32 → Takes uint32 (put_uint 4 v) v
unfolding uint32
Takes-uint32 v h =
    Takes-map (read_array 4) get_uint (put_uint 4 v) (put_uint 4 v) v (Takes-array _ _)
      (get-put_uint32 v h)

Takes-uint64 : (v : ℕ) → v < w64 → Takes uint64 (put_uint 8 v) v
unfolding uint64
Takes-uint64 v h =
    Takes-map (read_array 8) get_uint (put_uint 8 v) (put_uint 8 v) v (Takes-array _ _)
      (get-put_uint64 v h)

Takes-int32 : (v : ℤ) → Fits w32 v → Takes int32 (put_uint 4 (unsigned w32 v)) v
unfolding int32
Takes-int32 v f =
    Takes-map uint32 (signed w32) (put_uint 4 (unsigned w32 v)) (unsigned w32 v) v
      (Takes-uint32 (unsigned w32 v) (unsigned-lt w32 v (omega arith)))
      (signed-unsigned 2147483648 v f)

Takes-int64 : (v : ℤ) → Fits w64 v → Takes int64 (put_uint 8 (unsigned w64 v)) v
unfolding int64
Takes-int64 v f =
    Takes-map uint64 (signed w64) (put_uint 8 (unsigned w64 v)) (unsigned w64 v) v
      (Takes-uint64 (unsigned w64 v) (unsigned-lt w64 v (omega arith)))
      (signed-unsigned 9223372036854775808 v f)

Takes-byte : (v : ℤ) → Fits w8 v → Takes byte (unsigned w8 v ∷ []) v
unfolding byte
Takes-byte v f =
    Takes-map (read_array 1) (λ b. signed w8 (get_uint b)) (unsigned w8 v ∷ []) (unsigned w8 v ∷ [])
      v (Takes-array _ []) (ap (signed w8) (omega arith) ∙ signed-unsigned 128 v f)

Takes-time : (v : ℤ) → Fits w64 v → Takes time (put_uint 8 (unsigned w64 v)) (of_micros v)
unfolding time
Takes-time v f =
    Takes-map int64 of_micros (put_uint 8 (unsigned w64 v)) v (of_micros v) (Takes-int64 v f) refl

Takes-string :
    (b : ℕ) (bs : List ℕ) → length bs + 1 < 2 ^ 31 → Takes string (prefixed (b ∷ bs)) (b ∷ bs)
unfolding string read_string int32
Takes-string b bs h =
    Takes-seq int32 read_string (put_uint 4 (suc (length bs))) (b ∷ bs) (pos (suc (length bs)))
      (b ∷ bs)
      (Takes-map uint32 (signed w32) (put_uint 4 (suc (length bs))) (suc (length bs))
        (pos (suc (length bs))) (Takes-uint32 (suc (length bs)) (omega arith)) (ground arith))
      (Takes-array b bs)

-- What a server answers: a version, a code, and where the code is 0 its data.
pub record Greeting : Type 0 where
  pub version : ℤ
  pub host_id : ℤ
  pub connection : ℤ
  pub start_micros : ℤ
  pub leader : ℤ
  pub build_first : ℕ
  pub build_rest : List ℕ

pub record IsGreeting (g : Greeting) : Type 0 where
  pub version_fits : Fits w8 g.version
  pub host_fits : Fits w32 g.host_id
  pub connection_fits : Fits w64 g.connection
  pub start_fits : Fits w64 g.start_micros
  pub leader_fits : Fits w32 g.leader
  pub build_fits : length g.build_rest + 31 < 2 ^ 31

abbrev pub greeting_body : Greeting → List ℕ
greeting_body g =
    put_uint 4 (unsigned w32 g.host_id)
    ++ (put_uint 8 (unsigned w64 g.connection)
        ++ (put_uint 8 (unsigned w64 g.start_micros)
            ++ (put_uint 4 (unsigned w32 g.leader) ++ prefixed (g.build_first ∷ g.build_rest))))

abbrev pub greeting_format : ℤ → Greeting → List ℕ
greeting_format code g = unsigned w8 g.version ∷ unsigned w8 code ∷ greeting_body g

abbrev pub info_of : Greeting → ConnInfo
info_of g = record {
  host_id = g.host_id;
  connection = g.connection;
  cluster_start = of_micros g.start_micros;
  leader_value = g.leader;
  leader_ip = put_uint 4 (unsigned w32 g.leader);
  build = g.build_first ∷ g.build_rest;
}

Takes-login_info :
    (g : Greeting) → IsGreeting g → Takes login_info (greeting_format (pos 0) g) (info_of g)
unfolding login_info
Takes-login_info g v =
    let build : List ℕ = prefixed (g.build_first ∷ g.build_rest) in
    let leader : List ℕ = put_uint 4 (unsigned w32 g.leader) ++ build in
    let start : List ℕ = put_uint 8 (unsigned w64 g.start_micros) ++ leader in
    let connection : List ℕ = put_uint 8 (unsigned w64 g.connection) ++ start in
    Takes-seq byte _ (unsigned w8 g.version ∷ []) (0 ∷ greeting_body g) g.version (info_of g)
      (Takes-byte g.version v.version_fits)
      (Takes-seq byte _ (0 ∷ []) (greeting_body g) (pos 0) (info_of g)
        (Takes-byte (pos 0) (omega arith))
        (Takes-seq int32 _ (put_uint 4 (unsigned w32 g.host_id)) connection g.host_id (info_of g)
          (Takes-int32 g.host_id v.host_fits)
          (Takes-seq int64 _ (put_uint 8 (unsigned w64 g.connection)) start g.connection (info_of g)
            (Takes-int64 g.connection v.connection_fits)
            (Takes-seq time _ (put_uint 8 (unsigned w64 g.start_micros)) leader
              (of_micros g.start_micros) (info_of g) (Takes-time g.start_micros v.start_fits)
              (Takes-seq int32 _ (put_uint 4 (unsigned w32 g.leader)) build g.leader (info_of g)
                (Takes-int32 g.leader v.leader_fits)
                (Takes-map string _ build (g.build_first ∷ g.build_rest) (info_of g)
                  (Takes-string g.build_first g.build_rest (omega (arith, v.build_fits))) refl))))))

login_info-greeting :
    (g : Greeting)
    → IsGreeting g
    → login_info (reader (greeting_format (pos 0) g)) ≡ ok (info_of g) (reader [])
login_info-greeting g v =
    subst (λ bs. login_info (reader bs) ≡ ok (info_of g) (reader []))
      (append-nil (greeting_format (pos 0) g)) (Takes-login_info g v [])

length-greeting :
    (code : ℤ) (g : Greeting) → length (greeting_format code g) ≡ length g.build_rest + 31
length-greeting code g = omega arith

-- A server that accepts the login with these data, in a message of its own whose length stands whole
-- in a segment, is read as having sent them.
pub login-greeting :
    (g : Greeting) (p : List ℕ) (cs rest : List (List ℕ))
    → IsGreeting g
    → Front (greeting_format (pos 0) g) (push_back p cs) rest
    → login (conn ((put_uint 4 (length (greeting_format (pos 0) g)) ++ p) ∷ cs))
      ≡ ok (info_of g) (conn rest)
unfolding login run_on
login-greeting g p cs rest v front =
    let small : length (greeting_format (pos 0) g) < 2 ^ 31 =
      omega (arith, v.build_fits, length-greeting (pos 0) g) in
    ap (λ o. bind o (λ msg. run_on msg login_info))
      (message-Front (greeting_format (pos 0) g) p cs rest small front)
    ∙ ap (λ o. elim o [ ok c _ ↦ ok c (conn rest) | err e _ ↦ err e (conn rest) | panic ↦ panic ])
        (login_info-greeting g v)
