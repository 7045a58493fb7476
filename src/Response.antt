-- ===== src/Response.antt =====
-- Responses of the server: status, tables of a result and tables of rows (voltdbclient/response.go).
use voltdb_client_go.Common.{
  ℕ, zero, suc, leb, ◌/◌, ◌%◌, ◌==◌, if◌then◌else◌, Bool, true, false, ◌&&◌, ◌||◌, not, ℤ, pos,
  negsuc, eqb_ℤ, ltb_ℤ, Option, none, some, List, [], ◌∷◌, Error, bad_status, bad_app_status,
  negative_num_tables, bad_table_status, unexpected_columns, unexpected_column_type,
  unexpected_column_name, unexpected_rows, unexpected_row_length, ok, err, panic, Outcome, M, ◌>>=◌,
  ◌>>◌, pure, panics, guard,
}
use voltdb_client_go.Word.{unsigned, w8}
use voltdb_client_go.Wire.Source.{Source, read, padded}
use voltdb_client_go.Wire.Decoder
use voltdb_client_go.Table.{VoltTable, new_volt_table, bytes_eq}
pub mod Loops
pub mod Tables
pub mod Status
mod Tests

pub record VoltResponseInfo : Type 0 where
  pub handle : ℤ
  pub status : ℤ
  pub status_string : List ℕ
  pub app_status : ℤ
  pub app_status_string : List ℕ
  pub cluster_round_trip_time : ℤ
  pub num_tables : ℤ

-- ResponseStatus codes
abbrev pub success : ℤ
success = pos 1

abbrev pub connection_timeout : ℤ
connection_timeout = negsuc 5

abbrev pub uninitialized_app_status_code : ℤ
uninitialized_app_status_code = negsuc 127

unfoldable pub empty_volt_response_info_with_latency : ℤ → VoltResponseInfo
empty_volt_response_info_with_latency rtt = record {
  handle = pos 0;
  status = success;
  status_string = [];
  app_status = uninitialized_app_status_code;
  app_status_string = [];
  cluster_round_trip_time = rtt;
  num_tables = pos 0;
}

unfoldable pub empty_volt_response_info : VoltResponseInfo
unfolding empty_volt_response_info_with_latency
empty_volt_response_info = empty_volt_response_info_with_latency (negsuc 0)

pub record VoltError : Type 0 where
  pub volt_response : VoltResponseInfo
  pub error : Error

-- A decoded value, or a VoltError in its place, with the reader as it is left.
pub data Reply (A : Type 0) : Type 0 where
  good : A → Source → Reply A
  bad : VoltError → Source → Reply A
  crash : Reply A

abbrev pub R : Type 0 → Type 0
R A = Source → Reply A

-- `x, err := m; if err != nil { return ..., VoltError{voltResponse: info, error: err} }`
abbrev pub answer : {A B : Type 0} → VoltResponseInfo → Outcome Source A → (A → R B) → Reply B
answer info (ok a s) k = k a s
answer info (err e s) k = bad (record { volt_response = info; error = e }) s
answer info panic k = crash

abbrev pub attempt : {A B : Type 0} → VoltResponseInfo → M Source A → (A → R B) → R B
attempt info m k s = answer info (m s) k

abbrev pub reject : {A : Type 0} → VoltResponseInfo → Error → R A
reject info e s = bad (record { volt_response = info; error = e }) s

-- ResponseStatus.String panics on any code but these.
unfoldable pub has_name : ℤ → Bool
has_name (pos n) = n == 1
has_name (negsuc n) = leb n 8 || n == 127

-- `fieldsPresent&(1<<k) != 0` at `m = 1 << k`
unfoldable pub field_present : ℤ → ℕ → Bool
field_present u m = unsigned w8 u / m % 2 == 1

-- The status string, if there is one.
optional_string : Bool → M Source (List ℕ)
optional_string true = Decoder.string
optional_string false = pure []

bad_status_reply : ℤ → List ℕ → R VoltResponseInfo
unfolding has_name
bad_status_reply status text s =
    if has_name status then reject empty_volt_response_info (bad_status status text) s else crash

-- The number of tables.
response_tail : ℤ → ℤ → ℤ → ℤ → R VoltResponseInfo
response_tail handle status app_status rtt =
    attempt (empty_volt_response_info_with_latency rtt) Decoder.int16 λ num_tables.
      if ltb_ℤ num_tables (pos 0)
      then reject (empty_volt_response_info_with_latency rtt) negative_num_tables
      else good (record {
        handle = handle;
        status = status;
        status_string = [];
        app_status = app_status;
        app_status_string = [];
        cluster_round_trip_time = rtt;
        num_tables = num_tables;
      })

-- From the application status on.
app_part : ℤ → ℤ → ℤ → R VoltResponseInfo
unfolding field_present optional_string response_tail
app_part handle fields status = attempt empty_volt_response_info Decoder.byte λ app_status.
    if not (eqb_ℤ app_status (pos 0)) && not (eqb_ℤ app_status (negsuc 127))
    then attempt empty_volt_response_info (optional_string (field_present fields 128))
        (λ text. reject empty_volt_response_info (bad_app_status app_status text))
    else attempt empty_volt_response_info Decoder.int32 (response_tail handle status app_status)

unfoldable pub decode_response : ℤ → R VoltResponseInfo
unfolding app_part bad_status_reply
decode_response handle = attempt empty_volt_response_info Decoder.byte λ fields.
    attempt empty_volt_response_info Decoder.byte λ status.
      if eqb_ℤ status success
      then app_part handle fields status
      else attempt empty_volt_response_info (optional_string (field_present fields 32))
          (bad_status_reply status)

unfoldable pub decode_table_common : M Source ℤ
decode_table_common = do
  _ ← Decoder.int32
  _ ← Decoder.int32
  status_code ← Decoder.byte
  guard (eqb_ℤ status_code (pos 0) || eqb_ℤ status_code (negsuc 127)) (bad_table_status status_code)
  Decoder.int16

-- "modified_tuples" and "STATUS"
abbrev pub modified_tuples : List ℕ
modified_tuples =
    b'm' ∷ b'o' ∷ b'd' ∷ b'i' ∷ b'f' ∷ b'i' ∷ b'e' ∷ b'd' ∷ b'_' ∷ b't' ∷ b'u' ∷ b'p' ∷ b'l' ∷ b'e'
    ∷ b's' ∷ []

abbrev pub status_name : List ℕ
status_name = b'S' ∷ b'T' ∷ b'A' ∷ b'T' ∷ b'U' ∷ b'S' ∷ []

unfoldable pub decode_table_for_result : M Source ℤ
unfolding decode_table_common
decode_table_for_result = do
  col_count ← decode_table_common
  guard (eqb_ℤ col_count (pos 1)) unexpected_columns
  col_type ← Decoder.byte
  guard (eqb_ℤ col_type (pos 6)) unexpected_column_type
  cname ← Decoder.string
  guard (bytes_eq cname modified_tuples || bytes_eq cname status_name) unexpected_column_name
  row_count ← Decoder.int32
  guard (eqb_ℤ row_count (pos 1)) unexpected_rows
  row_len ← Decoder.int32
  guard (eqb_ℤ row_len (pos 8)) unexpected_row_length
  Decoder.int64

-- A loop of `n` rounds that fills a slice.
unfoldable pub repeat : {A : Type 0} → ℕ → M Source A → M Source (List A)
repeat zero m = pure []
repeat (suc n) m = do x ← m; xs ← repeat n m; pure (x ∷ xs)

-- `make([]T, n)` and the loop that fills it: a negative size panics.
unfoldable pub fill : {A : Type 0} → ℤ → M Source A → M Source (List A)
unfolding repeat
fill (pos n) m = repeat n m
fill (negsuc n) m = panics

-- A row is read with both errors dropped: what is not there is left 0.
row_bytes : ℤ → M Source (List ℕ)
row_bytes (negsuc n) s = panic
row_bytes (pos n) s = elim (read n s) [
  | ok b s' ↦ ok (padded n b) s'
  | err _ s' ↦ ok (padded n []) s'
  | panic ↦ panic
]

unfoldable pub decode_row : M Source (List ℕ)
unfolding row_bytes
decode_row s = elim (Decoder.int32 s) [
  | ok row_len s' ↦ row_bytes row_len s'
  | err _ s' ↦ row_bytes (pos 0) s'
  | panic ↦ panic
]

unfoldable pub decode_table_for_rows : M Source VoltTable
unfolding fill decode_row
decode_table_for_rows = do
  col_count ← decode_table_common
  column_types ← fill col_count Decoder.byte
  column_names ← fill col_count Decoder.string
  row_count ← Decoder.int32
  rows ← fill row_count decode_row
  pure (new_volt_table col_count column_types column_names row_count rows)

pub record VoltResult : Type 0 where
  pub volt_response : VoltResponseInfo
  pub rows_aff : List ℤ
  pub ti : ℤ

unfoldable pub new_volt_result : VoltResponseInfo → List ℤ → VoltResult
new_volt_result resp rows_aff = record { volt_response = resp; rows_aff = rows_aff; ti = pos 0 }

unfoldable pub decode_result : VoltResponseInfo → R VoltResult
unfolding fill decode_table_for_result new_volt_result
decode_result rsp =
    attempt rsp (fill rsp.num_tables decode_table_for_result) λ ras. good (new_volt_result rsp ras)

pub record VoltRows : Type 0 where
  pub volt_response : VoltResponseInfo
  pub tables : List VoltTable
  pub table_index : ℤ

unfoldable pub new_volt_rows : VoltResponseInfo → List VoltTable → VoltRows
new_volt_rows resp [] = record { volt_response = resp; tables = []; table_index = negsuc 0 }
new_volt_rows resp (t ∷ ts) = record { volt_response = resp; tables = t ∷ ts; table_index = pos 0 }

unfoldable pub decode_rows : VoltResponseInfo → R VoltRows
unfolding fill decode_table_for_rows new_volt_rows
decode_rows rsp =
    attempt rsp (fill rsp.num_tables decode_table_for_rows)
      λ tables. good (new_volt_rows rsp tables)
