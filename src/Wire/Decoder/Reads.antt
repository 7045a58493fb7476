-- ===== src/Wire/Decoder/Reads.antt =====
-- Reading from a bytes.Buffer that holds at least what is asked for.
use voltdb_client_go.Common.{
  ℕ, ◌<◌, ◌^◌, ◌≡◌, refl, ap, arith, ℤ, pos, List, [], ◌∷◌, ◌++◌, length, append_assoc, ok, M,
  ◌>>=◌, pure, ◌∙◌,
}
use voltdb_client_go.Word.{
  unsigned, signed, put_uint, get_uint, w8, w16, w32, w64, Fits, length-put_uint, signed-unsigned,
  unsigned-lt, get-put_uint16, get-put_uint32, get-put_uint64,
}
use voltdb_client_go.Wire.Encoder.Format.{prefixed}
use voltdb_client_go.Wire.Source.{Source, buffer, padded, read_lem, read_full_lem}
use voltdb_client_go.Wire.Decoder.{
  read_array, byte, uint16, int16, uint32, int32, uint64, int64, read_string, string, message,
  message_header, message_body,
}

-- `m` takes the bytes `bs` off the front of a buffer, whatever follows, and answers `a`.
abbrev pub Reads : {A : Type 0} → M Source A → List ℕ → A → Type 0
Reads m bs a = (s : Source) (rest : List ℕ) → s ≡ buffer (bs ++ rest) → m s ≡ ok a (buffer rest)

pub Reads-run :
    {A : Type 0} (m : M Source A) (bs : List ℕ) (a : A)
    → Reads m bs a
    → (rest : List ℕ) → m (buffer (bs ++ rest)) ≡ ok a (buffer rest)
Reads-run m bs a r rest = r (buffer (bs ++ rest)) rest refl

pub padded_lem : (bs : List ℕ) → padded (length bs) bs ≡ bs
padded_lem [] = refl
padded_lem (b ∷ bs) = ap (◌∷◌ b) (padded_lem bs)

Reads-array : (n : ℕ) (bs : List ℕ) → length bs ≡ n → Reads (read_array n) bs bs
unfolding read_array
Reads-array n bs e s rest q = rw (q, ← e) (rw read_lem (rw padded_lem))

pub Reads-seq :
    {A B : Type 0} (m : M Source A) (f : A → M Source B) (bs cs : List ℕ) (a : A) (b : B)
    → Reads m bs a
    → Reads (f a) cs b
    → Reads (m >>= f) (bs ++ cs) b
Reads-seq m f bs cs a b h k s rest q =
    rw (h s (cs ++ rest) (q ∙ ap buffer (append_assoc bs cs rest)))
      (k (buffer (cs ++ rest)) rest refl)

Reads-map :
    {A B : Type 0} (m : M Source A) (f : A → B) (bs : List ℕ) (a : A) (b : B)
    → Reads m bs a
    → f a ≡ b
    → Reads (m >>= λ x. pure (f x)) bs b
Reads-map m f bs a b h e s rest q = rw (h s rest q, e)

Reads-uint :
    (k v : ℕ)
    → get_uint (put_uint k v) ≡ v
    → Reads (read_array k >>= λ b. pure (get_uint b)) (put_uint k v) v
Reads-uint k v e =
    Reads-map (read_array k) get_uint (put_uint k v) (put_uint k v) v
      (Reads-array k (put_uint k v) (length-put_uint k v)) e

pub Reads-uint16 : (v : ℕ) → v < w16 → Reads uint16 (put_uint 2 v) v
unfolding uint16
Reads-uint16 v h = Reads-uint 2 v (get-put_uint16 v h)

pub Reads-uint32 : (v : ℕ) → v < w32 → Reads uint32 (put_uint 4 v) v
unfolding uint32
Reads-uint32 v h = Reads-uint 4 v (get-put_uint32 v h)

pub Reads-uint64 : (v : ℕ) → v < w64 → Reads uint64 (put_uint 8 v) v
unfolding uint64
Reads-uint64 v h = Reads-uint 8 v (get-put_uint64 v h)

pub Reads-byte : (v : ℤ) → Fits w8 v → Reads byte (unsigned w8 v ∷ []) v
unfolding byte
Reads-byte v f =
    Reads-map (read_array 1) (λ b. signed w8 (get_uint b)) (unsigned w8 v ∷ []) (unsigned w8 v ∷ [])
      v (Reads-array 1 (unsigned w8 v ∷ []) refl)
      (ap (signed w8) (omega arith) ∙ signed-unsigned 128 v f)

pub Reads-int16 : (v : ℤ) → Fits w16 v → Reads int16 (put_uint 2 (unsigned w16 v)) v
unfolding int16
Reads-int16 v f =
    Reads-map uint16 (signed w16) (put_uint 2 (unsigned w16 v)) (unsigned w16 v) v
      (Reads-uint16 _ (unsigned-lt w16 v (omega arith))) (signed-unsigned 32768 v f)

pub Reads-int32 : (v : ℤ) → Fits w32 v → Reads int32 (put_uint 4 (unsigned w32 v)) v
unfolding int32
Reads-int32 v f =
    Reads-map uint32 (signed w32) (put_uint 4 (unsigned w32 v)) (unsigned w32 v) v
      (Reads-uint32 _ (unsigned-lt w32 v (omega arith))) (signed-unsigned 2147483648 v f)

pub Reads-int64 : (v : ℤ) → Fits w64 v → Reads int64 (put_uint 8 (unsigned w64 v)) v
unfolding int64
Reads-int64 v f =
    Reads-map uint64 (signed w64) (put_uint 8 (unsigned w64 v)) (unsigned w64 v) v
      (Reads-uint64 _ (unsigned-lt w64 v (omega arith))) (signed-unsigned 9223372036854775808 v f)

-- A length that an int32 can hold.
pub Reads-length : (n : ℕ) → n < 2 ^ 31 → Reads int32 (put_uint 4 n) (pos n)
Reads-length n h = let e : unsigned w32 (pos n) ≡ n = omega arith in rw e at (Reads-int32 (pos n) h)

pub Reads-string : (s : List ℕ) → length s < 2 ^ 31 → Reads string (prefixed s) s
unfolding string read_string
Reads-string s h =
    Reads-seq int32 read_string (put_uint 4 (length s)) s (pos (length s)) s
      (Reads-length (length s) h) (Reads-array (length s) s refl)

pub Reads-message : (bs : List ℕ) → length bs < 2 ^ 31 → Reads message (prefixed bs) bs
unfolding message message_header message_body
Reads-message bs h =
    Reads-seq int32 message_body (put_uint 4 (length bs)) bs (pos (length bs)) bs
      (Reads-length (length bs) h) (λ s rest q. rw q (read_full_lem bs rest))
