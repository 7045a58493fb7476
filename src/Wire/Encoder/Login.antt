-- ===== src/Wire/Encoder/Login.antt =====
-- The bytes of a login (`Login` of wire/encoder.go).
use voltdb_client_go.Common.{ℕ, ◌≡◌, refl, ℤ, pos, eqb_ℤ, if◌then◌else◌, List, [], ◌∷◌, ◌++◌, ok}
use voltdb_client_go.Word.{unsigned, wrap, w8}
use voltdb_client_go.Wire.Encoder.{Encoder, new_encoder, message, login, login_hash, service}
use voltdb_client_go.Wire.Encoder.Format.{prefixed}
use voltdb_client_go.Wire.Encoder.Marshal.{Writes-byte, Writes-string, Writes-write}

module _ (sha1 sha256 : List ℕ → List ℕ) where
  -- The version, a byte that tells the hashes apart, the service, the user and the hashed password.
  abbrev pub login_format : ℤ → List ℕ → List ℕ → List ℕ
  login_format version user password =
      ((unsigned w8 (wrap w8 version)
          ∷ unsigned w8 (if eqb_ℤ version (pos 0) then pos 0 else pos 1)
          ∷ prefixed (service sha1 sha256))
        ++ prefixed user)
      ++ (if eqb_ℤ version (pos 0) then sha1 password else sha256 password)

  pub login-format :
      (version : ℤ) (user password : List ℕ)
      → (e : Encoder) × (login sha1 sha256 version user password new_encoder
          ≡ ok (message (login_format version user password)) e)
  unfolding login login_hash new_encoder
  login-format version user password =
      let kind : ℤ = if eqb_ℤ version (pos 0) then pos 0 else pos 1 in
      let hash : List ℕ = if eqb_ℤ version (pos 0) then sha1 password else sha256 password in
      let (t1, p1) = Writes-byte (wrap w8 version) new_encoder in
      let e1 : Encoder = record { buf = unsigned w8 (wrap w8 version) ∷ []; tmp = t1 } in
      let (t2, p2) = Writes-byte kind e1 in
      let e2 : Encoder = record {
        buf = unsigned w8 (wrap w8 version) ∷ unsigned w8 kind ∷ [];
        tmp = t2;
      } in
      let (t3, p3) = Writes-string (service sha1 sha256) e2 in
      let e3 : Encoder = record { buf = e2.buf ++ prefixed (service sha1 sha256); tmp = t3 } in
      let (t4, p4) = Writes-string user e3 in
      let e4 : Encoder = record { buf = e3.buf ++ prefixed user; tmp = t4 } in
      let (t5, p5) = Writes-write hash e4 in
      (record { buf = e4.buf ++ hash; tmp = t5 }, rw p1 (rw p2 (rw p3 (rw p4 (rw p5 refl)))))
