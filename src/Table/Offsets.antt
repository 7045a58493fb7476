-- ===== src/Table/Offsets.antt =====
-- Rows as the server encodes them, and the column offsets that calcOffsets (voltdbclient/table.go)
-- finds in them.
use voltdb_client_go.Common.{
  ℕ, suc, ◌+◌, ◌<◌, ◌^◌, ◌≡◌, refl, sym, ap, ◌∙◌, arith, ℤ, pos, ◌+ℤ◌, leb, ltb, true, some, List,
  [], ◌∷◌, ◌++◌, length, map, All, drop-append, length-append, append_assoc, ok, subst,
}
use voltdb_client_go.Word.{wrap, w16, w32, signed-get_uint}
use voltdb_client_go.Wire.Encoder.Format.{prefixed}
use voltdb_client_go.Wire.DecoderAt.{read_at, uint32_at, int32_at}
use voltdb_client_go.Table.{
  VoltTable, prefixed_length, col_length, offsets_from, index, calc_offsets, calc_offsets_of,
  offsets_size, store_offsets,
}

-- The column types of one size.
pub data Kind : Type 0 where
  null tinyint smallint integer bigint float timestamp decimal : Kind

abbrev pub code : Kind → ℕ
code null = 1
code tinyint = 3
code smallint = 4
code integer = 5
code bigint = 6
code float = 8
code timestamp = 11
code decimal = 22

abbrev pub width : Kind → ℕ
width null = 0
width tinyint = 1
width smallint = 2
width integer = 4
width bigint = 8
width float = 8
width timestamp = 8
width decimal = 16

-- A column of a row; a string and a byte array come behind their length, or are null.
pub data Field : Type 0 where
  fixed : Kind → List ℕ → Field
  string varbinary : List ℕ → Field
  null_string null_varbinary : Field

abbrev pub type_of : Field → ℤ
type_of (fixed k b) = pos (code k)
type_of (string b) = pos 9
type_of (varbinary b) = pos 25
type_of null_string = pos 9
type_of null_varbinary = pos 25

abbrev pub bytes_of : Field → List ℕ
bytes_of (fixed k b) = b
bytes_of (string b) = prefixed b
bytes_of (varbinary b) = prefixed b
bytes_of null_string = 255 ∷ 255 ∷ 255 ∷ 255 ∷ []
bytes_of null_varbinary = 255 ∷ 255 ∷ 255 ∷ 255 ∷ []

abbrev pub IsField : Field → Type 0
IsField (fixed k b) = length b ≡ width k
IsField (string b) = length b + 4 < 2 ^ 31
IsField (varbinary b) = length b + 4 < 2 ^ 31
IsField _ = Unit {0}

abbrev pub row_of : List Field → List ℕ
row_of [] = []
row_of (f ∷ fs) = bytes_of f ++ row_of fs

-- Where each column ends, when the first begins at `n`.
abbrev pub ends : ℕ → List Field → List ℤ
ends n [] = []
ends n (f ∷ fs) = let next = n + length (bytes_of f) in pos next ∷ ends next fs

-- Four bytes in the middle of a row.
read_at_lem :
    (pre : List ℕ) (a b c d : ℕ) (post : List ℕ)
    → read_at (pos 4) (pos (length pre)) (pre ++ (a ∷ b ∷ c ∷ d ∷ post))
      ≡ ok (a ∷ b ∷ c ∷ d ∷ []) (pre ++ (a ∷ b ∷ c ∷ d ∷ post))
unfolding read_at
read_at_lem pre a b c d post =
    let len = length-append pre (a ∷ b ∷ c ∷ d ∷ post) in
    let some_left : ltb (length pre) (length (pre ++ (a ∷ b ∷ c ∷ d ∷ post))) ≡ true =
      ground (arith, len) in
    let four_left : leb (length pre + 4) (length (pre ++ (a ∷ b ∷ c ∷ d ∷ post))) ≡ true =
      ground (arith, len) in
    rw (some_left, four_left, drop-append pre (a ∷ b ∷ c ∷ d ∷ post))

wrap_length : (n : ℕ) → n + 4 < 2 ^ 31 → wrap w32 (pos n +ℤ pos 4) ≡ pos (n + 4)
wrap_length n h = ground arith

prefixed_length-prefixed :
    (pre b post : List ℕ)
    → length b + 4 < 2 ^ 31
    → prefixed_length (pos (length pre)) (pre ++ (prefixed b ++ post))
      ≡ ok (pos (length (prefixed b))) (pre ++ (prefixed b ++ post))
unfolding prefixed_length int32_at uint32_at
prefixed_length-prefixed pre b post h = rw (read_at_lem pre) (
    rw (signed-get_uint (length b) (omega arith)) (
      rw (wrap_length (length b) h)
        (ap (λ n. ok (pos n) (pre ++ (prefixed b ++ post))) (omega arith))))

prefixed_length-null :
    (pre post : List ℕ)
    → prefixed_length (pos (length pre)) (pre ++ (255 ∷ 255 ∷ 255 ∷ 255 ∷ post))
      ≡ ok (pos 4) (pre ++ (255 ∷ 255 ∷ 255 ∷ 255 ∷ post))
unfolding prefixed_length int32_at uint32_at
prefixed_length-null pre post = rw (read_at_lem pre) refl

fixed_length :
    (k : Kind) (offset : ℤ) (row : List ℕ)
    → col_length offset (pos (code k)) row ≡ ok (pos (width k)) row
unfolding col_length
fixed_length null offset row = refl
fixed_length tinyint offset row = refl
fixed_length smallint offset row = refl
fixed_length integer offset row = refl
fixed_length bigint offset row = refl
fixed_length float offset row = refl
fixed_length timestamp offset row = refl
fixed_length decimal offset row = refl

-- colLength finds the size of a column that stands in a row.
pub col_length-field :
    (f : Field) (pre post : List ℕ)
    → IsField f
    → col_length (pos (length pre)) (type_of f) (pre ++ (bytes_of f ++ post))
      ≡ ok (pos (length (bytes_of f))) (pre ++ (bytes_of f ++ post))
unfolding col_length
col_length-field (fixed k b) pre post v =
    fixed_length k (pos (length pre)) (pre ++ (b ++ post))
    ∙ ap (λ n. ok (pos n) (pre ++ (b ++ post))) (sym v)
col_length-field (string b) pre post v = prefixed_length-prefixed pre b post v
col_length-field (varbinary b) pre post v = prefixed_length-prefixed pre b post v
col_length-field null_string pre post v = prefixed_length-null pre post
col_length-field null_varbinary pre post v = prefixed_length-null pre post

wrap_sum : (a b : ℕ) → a + b < 2 ^ 31 → wrap w32 (pos a +ℤ pos b) ≡ pos (a + b)
wrap_sum a b h = ground arith

offsets_from-ends :
    (fs : List Field) (pre : List ℕ)
    → All IsField fs
    → length (pre ++ row_of fs) < 2 ^ 31
    → offsets_from (length fs) (map type_of fs) (pos (length pre)) (pre ++ row_of fs)
      ≡ ok (ends (length pre) fs) (pre ++ row_of fs)
unfolding offsets_from
offsets_from-ends [] pre v h = refl
offsets_from-ends (f ∷ fs) pre (v, vs) h =
    let b : List ℕ = bytes_of f in
    let same : (pre ++ b) ++ row_of fs ≡ pre ++ (b ++ row_of fs) = append_assoc pre b (row_of fs) in
    let sum : length (pre ++ b) ≡ length pre + length b = length-append pre b in
    let small : length pre + length b < 2 ^ 31 =
      omega (arith, h, length-append pre (b ++ row_of fs), length-append b (row_of fs)) in
    let later : offsets_from (length fs) (map type_of fs) (pos (length pre + length b))
          (pre ++ (b ++ row_of fs))
        ≡ ok (ends (length pre + length b) fs) (pre ++ (b ++ row_of fs)) =
      subst
        (λ n.
          offsets_from (length fs) (map type_of fs) (pos n) (pre ++ (b ++ row_of fs))
          ≡ ok (ends n fs) (pre ++ (b ++ row_of fs)))
        sum
        (subst
          (λ r.
            offsets_from (length fs) (map type_of fs) (pos (length (pre ++ b))) r
            ≡ ok (ends (length (pre ++ b)) fs) r)
          same
          (offsets_from-ends fs (pre ++ b) vs (subst (λ r. length r < 2 ^ 31) (sym same) h))) in
    rw (col_length-field f pre (row_of fs) v)
      (rw (wrap_sum (length pre) (length b) small) (rw later))

size_lem : (n : ℕ) → n + 1 < 2 ^ 15 → offsets_size (pos n) ≡ some n
unfolding offsets_size
size_lem n h =
    let fits : wrap w16 (pos (suc n)) ≡ pos (suc n) = ground arith in rw (fits, offsets_size)

-- The current row of a table is the encoding of these columns.
pub record IsRow (fs : List Field) (vt : VoltTable) : Type 0 where
  pub count : vt.column_count ≡ pos (length fs)
  pub types : vt.column_types ≡ map type_of fs
  pub current : index vt.rows vt.row_index ≡ some (row_of fs)
  pub few : length fs + 1 < 2 ^ 15
  pub fields : All IsField fs
  pub small : length (row_of fs) < 2 ^ 31

-- calcOffsets stores where each column begins and ends.
pub calc_offsets-ends :
    (vt : VoltTable) (fs : List Field)
    → IsRow fs vt
    → calc_offsets vt ≡ ok tt (record vt { column_offsets = some (pos 0 ∷ ends 0 fs) })
unfolding calc_offsets calc_offsets_of store_offsets
calc_offsets-ends vt fs v =
    ap (λ o. calc_offsets_of vt o (index vt.rows vt.row_index))
      (ap offsets_size v.count ∙ size_lem (length fs) v.few)
    ∙ ap (calc_offsets_of vt (some (length fs))) v.current
    ∙ ap (store_offsets vt) (
        ap (λ t. offsets_from (length fs) t (pos 0) (row_of fs)) v.types
        ∙ offsets_from-ends fs [] v.fields v.small)
