-- ===== src/Wire/Decoder/Framing.antt =====
-- Messages behind their length (`Message` of wire/decoder.go) on a connection that delivers segments.
use voltdb_client_go.Common.{
  ℕ, ◌<◌, ◌^◌, ◌≡◌, refl, arith, pos, List, [], ◌∷◌, ◌++◌, length, ok, err, eof, inl,
}
use voltdb_client_go.Word.{put_uint, signed-get_uint}
use voltdb_client_go.Wire.Source.{buffer, conn, read, push_back}
use voltdb_client_go.Wire.Source.Segments.{Front, read_full-Front}
use voltdb_client_go.Wire.Decoder.{
  byte, message, message_header, int32, uint32, read_array, message_body,
}
use voltdb_client_go.Wire.Decoder.Reads.{Reads-run, Reads-byte}

-- A message whose length stands whole in a segment, which goes on with `p`.
pub message-Front :
    (m p : List ℕ) (cs rest : List (List ℕ))
    → length m < 2 ^ 31
    → Front m (push_back p cs) rest
    → message (conn ((put_uint 4 (length m) ++ p) ∷ cs)) ≡ ok m (conn rest)
unfolding message message_header int32 uint32 read_array message_body read
message-Front m p cs rest small front =
    rw (signed-get_uint (length m) small) (read_full-Front m (push_back p cs) rest front)

-- Two bytes of a length that end a segment are a length of 0.
pub message-zero :
    (b : ℕ) (c : List ℕ) (segs : List (List ℕ))
    → message (conn ((0 ∷ 0 ∷ []) ∷ (b ∷ c) ∷ segs)) ≡ ok [] (conn ((b ∷ c) ∷ segs))
unfolding message message_header int32 uint32 read_array message_body read
message-zero b c segs =
    read_full-Front [] ((b ∷ c) ∷ segs) ((b ∷ c) ∷ segs) (inl (b, c, refl, refl))

pub message_closed : message (conn []) ≡ err eof (conn [])
unfolding message message_header int32 uint32 read_array read
message_closed = refl

pub byte_empty : byte (buffer []) ≡ err eof (buffer [])
unfolding byte read_array read
byte_empty = refl

pub byte_versioned : (payload : List ℕ) → byte (buffer (0 ∷ payload)) ≡ ok (pos 0) (buffer payload)
byte_versioned payload = Reads-run byte (0 ∷ []) (pos 0) (Reads-byte (pos 0) (omega arith)) payload
