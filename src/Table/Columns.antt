-- ===== src/Table/Columns.antt =====
-- What getBytes (voltdbclient/table.go) returns.
use voltdb_client_go.Common.{
  ℕ, zero, suc, ◌+◌, ◌-◌, ◌<◌, ◌≡◌, refl, ap, ◌∙◌, subst, arith, ℤ, pos, ◌+ℤ◌, leb, true, Option,
  none, some, List, [], ◌∷◌, ◌++◌, length, get_elem?, take-append, drop-append, length-append,
  append_assoc, ok, ◌^◌, bind, M, Outcome,
}
use voltdb_client_go.Word.{wrap, w16}
use voltdb_client_go.Table.{
  VoltTable, index, ensure_offsets, subslice, slice_of, column_slice, or_panic, get_bytes,
  read_column,
}
use voltdb_client_go.Table.Offsets.{Field, bytes_of, row_of, ends, IsRow, calc_offsets-ends}

-- A part of a row between two others.
subslice_middle :
    (pre b post : List ℕ)
    → subslice (pre ++ (b ++ post)) (pos (length pre)) (pos (length pre + length b)) ≡ some b
unfolding subslice
subslice_middle pre b post =
    let len : length (pre ++ (b ++ post)) ≡ length pre + (length b + length post) =
      length-append pre (b ++ post) ∙ ap (λ n. length pre + n) (length-append b post) in
    let ordered : leb (length pre) (length pre + length b) ≡ true = ground arith in
    let inside : leb (length pre + length b) (length (pre ++ (b ++ post))) ≡ true =
      ground (arith, len) in
    let size : length pre + length b - length pre ≡ length b = omega arith in
    rw (ordered, inside, size, drop-append pre (b ++ post), take-append b post)

-- The slice that two stored offsets cut out of a row.
pub record IsCut (row : List ℕ) (offsets : List ℤ) (i : ℕ) (b : List ℕ) : Type 0 where
  pub lo : ℤ
  pub hi : ℤ
  pub from : get_elem? offsets i ≡ some lo
  pub to : get_elem? offsets (suc i) ≡ some hi
  pub cut : subslice row lo hi ≡ some b

bytes_of? : Option Field → List ℕ
bytes_of? none = []
bytes_of? (some f) = bytes_of f

cut_lem :
    (fs : List Field) (pre : List ℕ) (i : ℕ) (f : Field)
    → get_elem? fs i ≡ some f
    → IsCut (pre ++ row_of fs) (pos (length pre) ∷ ends (length pre) fs) i (bytes_of f)
unfolding bytes_of?
cut_lem [] pre i f e = absurd (ground arith)
cut_lem (g ∷ fs) pre zero f e =
    let same : bytes_of g ≡ bytes_of f = ap bytes_of? e in
    record {
      lo = pos (length pre);
      hi = pos (length pre + length (bytes_of g));
      from = refl;
      to = refl;
      cut = subslice_middle pre (bytes_of g) (row_of fs) ∙ ap some same;
    }
cut_lem (g ∷ fs) pre (suc i) f e =
    let later = cut_lem fs (pre ++ bytes_of g) i f e in
    let at : IsCut (pre ++ (bytes_of g ++ row_of fs))
        (pos (length (pre ++ bytes_of g)) ∷ ends (length (pre ++ bytes_of g)) fs) i (bytes_of f) =
      subst
        (λ r.
          IsCut r (pos (length (pre ++ bytes_of g)) ∷ ends (length (pre ++ bytes_of g)) fs) i
            (bytes_of f))
        (append_assoc pre (bytes_of g) (row_of fs)) later in
    let moved : IsCut (pre ++ (bytes_of g ++ row_of fs))
        (pos (length pre + length (bytes_of g)) ∷ ends (length pre + length (bytes_of g)) fs) i
        (bytes_of f) =
      subst (λ n. IsCut (pre ++ (bytes_of g ++ row_of fs)) (pos n ∷ ends n fs) i (bytes_of f))
        (length-append pre (bytes_of g)) at in
    record { lo = moved.lo; hi = moved.hi; from = moved.from; to = moved.to; cut = moved.cut }

picked :
    (vt : VoltTable) (row : Option (List ℕ)) (lo hi : Option ℤ) (r : List ℕ) (l h : ℤ) (b : List ℕ)
    → row ≡ some r
    → lo ≡ some l
    → hi ≡ some h
    → subslice r l h ≡ some b
    → or_panic (slice_of row lo hi) vt ≡ ok b vt
unfolding or_panic slice_of
picked vt row lo hi r l h b er el eh e = rw (er, el, eh) (ap (λ o. or_panic o vt) e)

-- With the offsets of the row at hand, the bytes of a column are cut out of it.
read_known :
    (vt : VoltTable) (fs : List Field) (i : ℕ) (f : Field)
    → index vt.rows vt.row_index ≡ some (row_of fs)
    → get_elem? fs i ≡ some f
    → i + 1 < 2 ^ 15
    → read_column vt.row_index (pos i) vt (some (pos 0 ∷ ends 0 fs)) ≡ ok (bytes_of f) vt
unfolding read_column column_slice index
read_known vt fs i f current e small =
    let offsets : List ℤ = pos 0 ∷ ends 0 fs in
    let cut = cut_lem fs [] i f e in
    let next : wrap w16 (pos i +ℤ pos 1) ≡ pos (suc i) = ground arith in
    picked vt (index vt.rows vt.row_index) (get_elem? offsets i)
      (index offsets (wrap w16 (pos i +ℤ pos 1))) (row_of fs) cut.lo cut.hi (bytes_of f) current
      cut.from (ap (index offsets) next ∙ cut.to) cut.cut

pub get_bytes-column :
    (vt : VoltTable) (fs : List Field) (i : ℕ) (f : Field)
    → IsRow fs vt
    → vt.column_offsets ≡ none
    → get_elem? fs i ≡ some f
    → i + 1 < 2 ^ 15
    → get_bytes vt.row_index (pos i) vt
      ≡ ok (bytes_of f) (record vt { column_offsets = some (pos 0 ∷ ends 0 fs) })
unfolding get_bytes ensure_offsets
get_bytes-column vt fs i f v no_offsets e small =
    let done : VoltTable = record vt { column_offsets = some (pos 0 ∷ ends 0 fs) } in
    let rest : M VoltTable (List ℕ) = λ t. read_column vt.row_index (pos i) t t.column_offsets in
    ap (λ o. bind (ensure_offsets vt o) (λ _. rest)) no_offsets
    ∙ ap (λ o. bind o (λ _. rest)) (calc_offsets-ends vt fs v)
    ∙ read_known done fs i f v.current e small

-- Once they are known, getBytes leaves the table as it is.
pub get_bytes-known :
    (vt : VoltTable) (fs : List Field) (i : ℕ) (f : Field)
    → IsRow fs vt
    → vt.column_offsets ≡ some (pos 0 ∷ ends 0 fs)
    → get_elem? fs i ≡ some f
    → i + 1 < 2 ^ 15
    → get_bytes vt.row_index (pos i) vt ≡ ok (bytes_of f) vt
unfolding get_bytes ensure_offsets
get_bytes-known vt fs i f v known e small =
    let rest : Option (List ℤ) → Outcome VoltTable (List ℕ) = read_column vt.row_index (pos i) vt in
    ap
      (λ o. bind (ensure_offsets vt o) (λ _ t. read_column vt.row_index (pos i) t t.column_offsets))
      known
    ∙ ap rest known
    ∙ read_known vt fs i f v.current e small
