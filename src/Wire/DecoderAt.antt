-- ===== src/Wire/DecoderAt.antt =====
-- The type DecoderAt of wire/decoder.go over a bytes.Reader, whose bytes are the state and stay as
-- they are.
use voltdb_client_go.Common.{
  ℕ, zero, ◌+◌, leb, ltb, ◌&&◌, if◌then◌else◌, ℤ, pos, negsuc, ◌+ℤ◌, List, [], length, take, drop,
  eof, ok, err, panic, M, ◌>>=◌, pure,
}
use voltdb_client_go.Word.{signed, get_uint, w16, w32, w64}

-- `ReadAt` is exact: it fails where fewer bytes are there, at the end also for an empty read. A
-- negative offset is an error too, and `make([]byte, size)` panics on a negative size.
unfoldable pub read_at : ℤ → ℤ → M (List ℕ) (List ℕ)
read_at (pos size) (pos offset) r =
    if ltb offset (length r) && leb (offset + size) (length r)
    then ok (take size (drop offset r)) r
    else err eof r
read_at (pos size) (negsuc offset) r = err eof r
read_at (negsuc size) offset r = panic

unfoldable pub byte_at : ℤ → M (List ℕ) ℕ
byte_at offset = do b ← read_at (pos 1) offset; pure (get_uint b)

unfoldable pub uint32_at : ℤ → M (List ℕ) ℕ
uint32_at offset = do b ← read_at (pos 4) offset; pure (get_uint b)

unfoldable pub int32_at : ℤ → M (List ℕ) ℤ
int32_at offset = do v ← uint32_at offset; pure (signed w32 v)

-- The bytes behind the size; a size of -1 is null, told here by the empty slice.
bytes_behind : ℤ → ℤ → M (List ℕ) (List ℕ)
bytes_behind offset (negsuc zero) = pure []
bytes_behind offset size = read_at size (offset +ℤ pos 4)

unfoldable pub byte_slice_at : ℤ → M (List ℕ) (List ℕ)
unfolding bytes_behind
byte_slice_at offset = do size ← int32_at offset; bytes_behind offset size

unfoldable pub uint64_at : ℤ → M (List ℕ) ℕ
uint64_at offset = do b ← read_at (pos 8) offset; pure (get_uint b)

unfoldable pub int64_at : ℤ → M (List ℕ) ℤ
int64_at offset = do v ← uint64_at offset; pure (signed w64 v)

unfoldable pub float64_at : ℤ → M (List ℕ) ℕ
float64_at = uint64_at

unfoldable pub string_at : ℤ → M (List ℕ) (List ℕ)
string_at offset = do size ← int32_at offset; read_at size (offset +ℤ pos 4)

unfoldable pub uint16_at : ℤ → M (List ℕ) ℕ
uint16_at offset = do b ← read_at (pos 2) offset; pure (get_uint b)

unfoldable pub int16_at : ℤ → M (List ℕ) ℤ
int16_at offset = do v ← uint16_at offset; pure (signed w16 v)
