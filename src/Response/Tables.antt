-- ===== src/Response/Tables.antt =====
-- The tables of a response as the server sends them, and that decodeTableForResult,
-- decodeTableForRows, decodeResult and decodeRows (voltdbclient/response.go) read them back.
use voltdb_client_go.Common.{
  ℕ, ◌<◌, ◌^◌, ◌≡◌, refl, sym, ap, ◌∙◌, arith, ℤ, pos, List, [], ◌∷◌, ◌++◌, length, All,
  append_assoc, M, ◌⊎◌, inl, inr, negsuc, eqb_ℤ, ◌||◌, bad_table_status, unexpected_column_name,
  ◌>>=◌, guard, map,
}
use voltdb_client_go.Word.{unsigned, put_uint, w8, w32, w64, Fits}
use voltdb_client_go.Wire.Encoder.Format.{prefixed}
use voltdb_client_go.Wire.Source.{Source, buffer, read_lem}
use voltdb_client_go.Wire.Decoder
use voltdb_client_go.Wire.Decoder.Reads.{
  Reads, Reads-run, Reads-seq, Reads-byte, Reads-int32, Reads-int64, Reads-string, Reads-length,
  padded_lem,
}
use voltdb_client_go.Table.{VoltTable, new_volt_table, bytes_eq}
use voltdb_client_go.Response.Loops.{concat, Reads-last, Reads-fill, Reads-fill_self, Reads-count}
use voltdb_client_go.Response.{
  VoltResponseInfo, good, fill, row_bytes, decode_row, decode_table_common, decode_table_for_result,
  decode_table_for_rows, new_volt_result, new_volt_rows, decode_result, decode_rows,
  modified_tuples, status_name,
}

-- What a table begins with: two lengths, which the client does not look at, and a status.
pub record TableHead : Type 0 where
  pub ttl_length : ℤ
  pub meta_length : ℤ
  pub status_code : ℤ

-- Lengths that an int32 holds, and a status that the client takes.
pub record IsHead (h : TableHead) : Type 0 where
  pub ttl_fits : Fits w32 h.ttl_length
  pub meta_fits : Fits w32 h.meta_length
  pub accepted : (h.status_code ≡ pos 0) ⊎ (h.status_code ≡ negsuc 127)

-- With the number of columns.
abbrev pub table_header : TableHead → ℕ → List ℕ
table_header h columns =
    put_uint 4 (unsigned w32 h.ttl_length)
    ++ (put_uint 4 (unsigned w32 h.meta_length) ++ (unsigned w8 h.status_code ∷ put_uint 2 columns))

-- The status byte and the test on it.
Reads-status :
    (v : ℤ) (m : M Source ℤ) (bs : List ℕ) (a : ℤ)
    → (v ≡ pos 0) ⊎ (v ≡ negsuc 127)
    → Reads m bs a
    → Reads
        (Decoder.byte >>= λ x.
          guard (eqb_ℤ x (pos 0) || eqb_ℤ x (negsuc 127)) (bad_table_status x) >>= λ _. m)
        (unsigned w8 v ∷ bs)
        a
Reads-status v m bs a (inl e) r =
    rw e (Reads-seq _ _ (0 ∷ []) bs (pos 0) a (Reads-byte (pos 0) (omega arith)) r)
Reads-status v m bs a (inr e) r =
    rw e (Reads-seq _ _ (128 ∷ []) bs (negsuc 127) a (Reads-byte (negsuc 127) (omega arith)) r)

Reads-table_common :
    (h : TableHead) (columns : ℕ)
    → IsHead h
    → columns < 2 ^ 15
    → Reads decode_table_common (table_header h columns) (pos columns)
unfolding decode_table_common
Reads-table_common h columns v fc =
    let tail : List ℕ = unsigned w8 h.status_code ∷ put_uint 2 columns in
    Reads-seq _ _ (put_uint 4 (unsigned w32 h.ttl_length))
      (put_uint 4 (unsigned w32 h.meta_length) ++ tail) h.ttl_length (pos columns)
      (Reads-int32 h.ttl_length v.ttl_fits)
      (Reads-seq _ _ (put_uint 4 (unsigned w32 h.meta_length)) tail h.meta_length (pos columns)
        (Reads-int32 h.meta_length v.meta_fits)
        (Reads-status h.status_code Decoder.int16 (put_uint 2 columns) (pos columns) v.accepted
          (Reads-count columns fc)))

-- The table that reports how many rows a statement changed.
pub record ResultTable : Type 0 where
  pub head : TableHead
  pub column_name : List ℕ
  pub changed : ℤ

pub record IsResultTable (t : ResultTable) : Type 0 where
  pub head_good : IsHead t.head
  pub known : (t.column_name ≡ modified_tuples) ⊎ (t.column_name ≡ status_name)
  pub changed_fits : Fits w64 t.changed

abbrev pub result_table_format : ResultTable → List ℕ
result_table_format t =
    table_header t.head 1
    ++ (6
        ∷ (prefixed t.column_name
            ++ (put_uint 4 1 ++ (put_uint 4 8 ++ put_uint 8 (unsigned w64 t.changed)))))

abbrev pub changed_of : ResultTable → ℤ
changed_of t = t.changed

-- The column name and the test on it.
Reads-column_name :
    (n : List ℕ) (m : M Source ℤ) (bs : List ℕ) (a : ℤ)
    → (n ≡ modified_tuples) ⊎ (n ≡ status_name)
    → Reads m bs a
    → Reads
        (Decoder.string >>= λ x.
          guard (bytes_eq x modified_tuples || bytes_eq x status_name) unexpected_column_name
          >>= λ _. m)
        (prefixed n ++ bs)
        a
unfolding bytes_eq
Reads-column_name n m bs a (inl e) r = rw e (
    Reads-seq _ _ (prefixed modified_tuples) bs modified_tuples a
      (Reads-string modified_tuples (omega arith)) r)
Reads-column_name n m bs a (inr e) r = rw e (
    Reads-seq _ _ (prefixed status_name) bs status_name a (Reads-string status_name (omega arith))
      r)

Reads-table_for_result :
    (t : ResultTable)
    → IsResultTable t
    → Reads decode_table_for_result (result_table_format t) t.changed
unfolding decode_table_for_result
Reads-table_for_result t v =
    let long : List ℕ = put_uint 8 (unsigned w64 t.changed) in
    let row : List ℕ = put_uint 4 8 ++ long in
    let rows : List ℕ = put_uint 4 1 ++ row in
    let columns : List ℕ = prefixed t.column_name ++ rows in
    Reads-seq _ _ (table_header t.head 1) (6 ∷ columns) (pos 1) t.changed
      (Reads-table_common t.head 1 v.head_good (omega arith))
      (Reads-seq _ _ (6 ∷ []) columns (pos 6) t.changed (Reads-byte (pos 6) (omega arith)) (
        Reads-column_name t.column_name _ rows t.changed v.known (
          Reads-seq _ _ (put_uint 4 1) row (pos 1) t.changed (Reads-length 1 (omega arith)) (
            Reads-seq _ _ (put_uint 4 8) long (pos 8) t.changed (Reads-length 8 (omega arith))
              (Reads-int64 t.changed v.changed_fits)))))

All-result :
    (ts : List ResultTable)
    → All IsResultTable ts
    → All (λ t. Reads decode_table_for_result (result_table_format t) (changed_of t)) ts
All-result [] h = tt
All-result (t ∷ ts) (v, vs) = (Reads-table_for_result t v, All-result ts vs)

-- decodeResult reads as many tables as the response announces, and answers the number of changed
-- rows of each, in order. A table has any lengths in its head, a status of 0 or -128, and the column
-- name modified_tuples or STATUS.
pub decode_result-tables :
    (rsp : VoltResponseInfo) (ts : List ResultTable) (rest : List ℕ)
    → rsp.num_tables ≡ pos (length ts)
    → All IsResultTable ts
    → decode_result rsp (buffer (concat (map result_table_format ts) ++ rest))
      ≡ good
          (record { volt_response = rsp; rows_aff = map changed_of ts; ti = pos 0 })
          (buffer rest)
unfolding decode_result new_volt_result
decode_result-tables rsp ts rest e h = rw (
    Reads-run (fill rsp.num_tables decode_table_for_result) (concat (map result_table_format ts))
      (map changed_of ts)
      (Reads-fill decode_table_for_result result_table_format changed_of rsp.num_tables ts e
        (All-result ts h))
      rest)

-- A table of rows as the server sends it: its head, types, names and the bytes of each row.
pub record TableData : Type 0 where
  pub head : TableHead
  pub types : List ℤ
  pub names : List (List ℕ)
  pub rows : List (List ℕ)

abbrev pub byte_format : ℤ → List ℕ
byte_format v = unsigned w8 v ∷ []

abbrev pub rows_table_format : TableData → List ℕ
rows_table_format t =
    table_header t.head (length t.types)
    ++ (concat (map byte_format t.types)
        ++ (concat (map prefixed t.names)
            ++ (put_uint 4 (length t.rows) ++ concat (map prefixed t.rows))))

-- A good head, and the sizes that the protocol can carry.
pub record IsSendable (t : TableData) : Type 0 where
  pub head_good : IsHead t.head
  pub columns : length t.types < 2 ^ 15
  pub named : length t.names ≡ length t.types
  pub types_fit : All (Fits w8) t.types
  pub names_fit : All (λ n. length n < 2 ^ 31) t.names
  pub rows_count : length t.rows < 2 ^ 31
  pub rows_fit : All (λ r. length r < 2 ^ 31) t.rows

abbrev pub table_of : TableData → VoltTable
table_of t = new_volt_table (pos (length t.types)) t.types t.names (pos (length t.rows)) t.rows

Reads-row : (r : List ℕ) → length r < 2 ^ 31 → Reads decode_row (prefixed r) r
unfolding decode_row row_bytes
Reads-row r h s rest q =
    rw
      (
        Reads-length (length r) h s (r ++ rest)
            (q ∙ ap buffer (append_assoc (put_uint 4 (length r)) r rest)),
        decode_row,
      )
      (rw (row_bytes, read_lem r rest) (rw padded_lem))

All-rows :
    (rs : List (List ℕ))
    → All (λ r. length r < 2 ^ 31) rs
    → All (λ r. Reads decode_row (prefixed r) r) rs
All-rows [] h = tt
All-rows (r ∷ rs) (f, fs) = (Reads-row r f, All-rows rs fs)

All-strings :
    (rs : List (List ℕ))
    → All (λ r. length r < 2 ^ 31) rs
    → All (λ r. Reads Decoder.string (prefixed r) r) rs
All-strings [] h = tt
All-strings (r ∷ rs) (f, fs) = (Reads-string r f, All-strings rs fs)

All-bytes : (vs : List ℤ) → All (Fits w8) vs → All (λ v. Reads Decoder.byte (byte_format v) v) vs
All-bytes [] h = tt
All-bytes (v ∷ vs) (f, fs) = (Reads-byte v f, All-bytes vs fs)

Reads-table_for_rows :
    (t : TableData) → IsSendable t → Reads decode_table_for_rows (rows_table_format t) (table_of t)
unfolding decode_table_for_rows
Reads-table_for_rows t v =
    let rows : List ℕ = concat (map prefixed t.rows) in
    let counted : List ℕ = put_uint 4 (length t.rows) ++ rows in
    let names : List ℕ = concat (map prefixed t.names) ++ counted in
    let types : List ℕ = concat (map byte_format t.types) ++ names in
    Reads-seq _ _ (table_header t.head (length t.types)) types (pos (length t.types)) (table_of t)
      (Reads-table_common t.head (length t.types) v.head_good v.columns)
      (Reads-seq _ _ (concat (map byte_format t.types)) names t.types (table_of t)
        (Reads-fill_self Decoder.byte byte_format (pos (length t.types)) t.types refl
          (All-bytes t.types v.types_fit))
        (Reads-seq _ _ (concat (map prefixed t.names)) counted t.names (table_of t)
          (Reads-fill_self Decoder.string prefixed (pos (length t.types)) t.names
            (ap pos (sym v.named)) (All-strings t.names v.names_fit))
          (Reads-seq _ _ (put_uint 4 (length t.rows)) rows (pos (length t.rows)) (table_of t)
            (Reads-length (length t.rows) v.rows_count)
            (Reads-last (fill (pos (length t.rows)) decode_row) _ rows t.rows (
              Reads-fill_self decode_row prefixed (pos (length t.rows)) t.rows refl
                (All-rows t.rows v.rows_fit))))))

All-tables :
    (ts : List TableData)
    → All IsSendable ts
    → All (λ t. Reads decode_table_for_rows (rows_table_format t) (table_of t)) ts
All-tables [] h = tt
All-tables (t ∷ ts) (v, vs) = (Reads-table_for_rows t v, All-tables ts vs)

-- decodeRows reads as many tables as the response announces, one at least: their columns, names and
-- row bytes, whatever the lengths in their heads and with a status of 0 or -128. The first is the
-- current one. A table has fewer than 2 ^ 15 columns, and the lengths of names, rows and table are
-- below 2 ^ 31.
pub decode_rows-tables :
    (rsp : VoltResponseInfo) (t : TableData) (ts : List TableData) (rest : List ℕ)
    → rsp.num_tables ≡ pos (length (t ∷ ts))
    → All IsSendable (t ∷ ts)
    → decode_rows rsp (buffer (concat (map rows_table_format (t ∷ ts)) ++ rest))
      ≡ good
          (record { volt_response = rsp; tables = map table_of (t ∷ ts); table_index = pos 0 })
          (buffer rest)
unfolding decode_rows new_volt_rows
decode_rows-tables rsp t ts rest e h = rw (
    Reads-run (fill rsp.num_tables decode_table_for_rows) (concat (map rows_table_format (t ∷ ts)))
      (map table_of (t ∷ ts))
      (Reads-fill decode_table_for_rows rows_table_format table_of rsp.num_tables (t ∷ ts) e
        (All-tables (t ∷ ts) h))
      rest)
