-- ===== src/Rows/Tests.antt =====
-- The theorems about rows at concrete tables (voltdbclient/rows.go).
use voltdb_client_go.Common.{
  ℕ, ◌≡◌, refl, pos, negsuc, Bool, none, some, List, [], ◌∷◌, map, ok, if◌then◌else◌, leb, ◌&&◌,
  ◌-◌,
}
use voltdb_client_go.Table.{VoltTable, index, index_names}
use voltdb_client_go.Response.{VoltResponseInfo, VoltRows, success, new_volt_rows}
use voltdb_client_go.Response.Tables.{TableHead, TableData, table_of}
use voltdb_client_go.Rows.{table, get_integer}
use voltdb_client_go.Rows.Names.{get_by_name}
use voltdb_client_go.Rows.Cells.{Cell}
use voltdb_client_go.Rows.View.{next_row}
use voltdb_client_go.Rows.Fetch.{TypedTable, data_of}
use voltdb_client_go.Rows.ByName.{asked, last_named, get_by_name-last}
use voltdb_client_go.Rows.Cursor.{Call, moved_all, moved_all-placed}

abbrev info : VoltResponseInfo
info = record {
  handle = pos 7;
  status = success;
  status_string = [];
  app_status = negsuc 127;
  app_status_string = [];
  cluster_round_trip_time = pos 12;
  num_tables = pos 2;
}

-- The head of a table in a response of the server.
abbrev real_head : TableHead
real_head = record { ttl_length = pos 41; meta_length = pos 17; status_code = negsuc 127 }

abbrev first_row : List Cell
first_row =
    Cell.integer (some (negsuc 4)) ∷ Cell.string (some (b'a' ∷ b'b' ∷ [])) ∷ Cell.bigint none ∷ []

abbrev second_row : List Cell
second_row = Cell.integer none ∷ Cell.string none ∷ Cell.bigint (some (pos 300)) ∷ []

abbrev people : TypedTable
people = record {
  head = real_head;
  types = pos 5 ∷ pos 9 ∷ pos 6 ∷ [];
  names = (b'I' ∷ b'D' ∷ []) ∷ (b'N' ∷ []) ∷ (b'I' ∷ b'D' ∷ []) ∷ [];
  rows = first_row ∷ second_row ∷ [];
}

abbrev blank : TableData
blank = record { head = real_head; types = []; names = []; rows = [] }

-- In front of the second row.
abbrev people_table : VoltTable
people_table = record {
  column_count = pos 3;
  column_types = people.types;
  column_names = people.names;
  num_rows = pos 2;
  rows = (data_of people).rows;
  row_index = pos 0;
  cn_to_ci = index_names 0 people.names [];
  column_offsets = none;
}

abbrev people_rows : VoltRows
people_rows = record { volt_response = info; tables = people_table ∷ []; table_index = pos 0 }

-- ASCII letters in upper case.
abbrev upper : List ℕ → List ℕ
upper bs = map (λ b. if leb 97 b && leb b 122 then b - 32 else b) bs

get_by_name-last_example :
    get_by_name upper get_integer (b'i' ∷ b'd' ∷ []) people_rows
    ≡ asked get_integer
        (b'i' ∷ b'd' ∷ [])
        (last_named (b'I' ∷ b'D' ∷ []) people.names 0)
        people_rows
unfolding table index
get_by_name-last_example =
    get_by_name-last upper get_integer (b'i' ∷ b'd' ∷ []) people_rows people_table refl refl

moved_all-placed_example :
    (bs : List Bool) × (s : VoltRows) × (u : VoltTable) × (moved_all
        (Call.to_table (negsuc 3)
          ∷ Call.next_row
          ∷ Call.next_table
          ∷ Call.to_row (pos 5)
          ∷ Call.next_table
          ∷ [])
        (new_volt_rows info (people_table ∷ table_of blank ∷ []))
      ≡ ok bs s)
    × (table s ≡ some u)
moved_all-placed_example =
    moved_all-placed info people_table (table_of blank ∷ [])
      (Call.to_table (negsuc 3)
        ∷ Call.next_row
        ∷ Call.next_table
        ∷ Call.to_row (pos 5)
        ∷ Call.next_table
        ∷ [])
      refl
