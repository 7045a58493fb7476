-- ===== src/Wire/Source.antt =====
-- The readers that the client decodes from: io.Reader as its three uses in the repository.
use voltdb_client_go.Common.{
  ℕ, zero, suc, ◌-◌, ltb, leb, ◌==◌, if◌then◌else◌, List, [], ◌∷◌, ◌++◌, length, take, drop, eof,
  unexpected_eof, ok, err, M, ◌≡◌, refl, arith, true, take-append, drop-append, length-append,
}
pub mod Segments

-- `buffer` is a bytes.Buffer, `reader` a bytes.Reader, each with what it has left. `conn` is a
-- connection, with the segments that arrive one after the other until the peer closes.
pub data Source : Type 0 where
  buffer : List ℕ → Source
  reader : List ℕ → Source
  conn : List (List ℕ) → Source

-- What is left of a segment stays in front of the others.
abbrev pub push_back : List ℕ → List (List ℕ) → List (List ℕ)
push_back [] cs = cs
push_back (b ∷ bs) cs = (b ∷ bs) ∷ cs

-- `Read(b)` with `n = len(b)`: at most `n` bytes, fewer when the source or the segment ends first.
-- At the end a Buffer and a connection still grant an empty read, and a Reader does not.
unfoldable pub read : ℕ → M Source (List ℕ)
read n (buffer []) = if n == 0 then ok [] (buffer []) else err eof (buffer [])
read n (buffer (b ∷ bs)) = ok (take n (b ∷ bs)) (buffer (drop n (b ∷ bs)))
read n (reader []) = err eof (reader [])
read n (reader (b ∷ bs)) = ok (take n (b ∷ bs)) (reader (drop n (b ∷ bs)))
read n (conn []) = if n == 0 then ok [] (conn []) else err eof (conn [])
read n (conn (c ∷ cs)) = ok (take n c) (conn (push_back (drop n c) cs))

-- The bytes that a source still holds.
abbrev pub remaining : Source → List ℕ
remaining (buffer bs) = bs
remaining (reader bs) = bs
remaining (conn []) = []
remaining (conn (c ∷ cs)) = c ++ remaining (conn cs)

-- A fixed array of `n` bytes after a read into it: the bytes that were not read stay 0.
abbrev pub padded : ℕ → List ℕ → List ℕ
padded zero bs = []
padded (suc n) [] = 0 ∷ padded n []
padded (suc n) (b ∷ bs) = b ∷ padded n bs

-- The segments without their first `n` bytes.
pub skip : ℕ → List (List ℕ) → List (List ℕ)
skip n [] = []
skip n (c ∷ cs) =
    let rest = skip (n - length c) cs in if ltb n (length c) then drop n c ∷ cs else rest

pub after : ℕ → Source → Source
unfolding skip
after n (buffer bs) = buffer (drop n bs)
after n (reader bs) = reader (drop n bs)
after n (conn cs) = conn (skip n cs)

-- `io.ReadFull(r, b)` with `n = len(b)`: reads on until `n` bytes are there, and fails where the
-- source ends before that, by EOF if it held nothing.
unfoldable pub read_full : ℕ → M Source (List ℕ)
unfolding after
read_full n s =
    let held = remaining s in
    if leb n (length held)
    then ok (take n held) (after n s)
    else err (if length held == 0 then eof else unexpected_eof) (after n s)

-- On a buffer that holds at least the bytes asked for, each takes just those.
pub read_lem : (bs rest : List ℕ) → read (length bs) (buffer (bs ++ rest)) ≡ ok bs (buffer rest)
unfolding read
read_lem [] [] = refl
read_lem [] (r ∷ rest) = refl
read_lem (b ∷ bs) rest = λ i. ok (b ∷ take-append bs rest i) (buffer (drop-append bs rest i))

pub read_full_lem :
    (bs rest : List ℕ) → read_full (length bs) (buffer (bs ++ rest)) ≡ ok bs (buffer rest)
unfolding read_full
read_full_lem bs rest =
    let fits : leb (length bs) (length (bs ++ rest)) ≡ true =
      ground (arith, length-append bs rest) in
    rw (fits, take-append bs rest, drop-append bs rest)
