-- ===== src/Response/Tests.antt =====
-- The theorems about responses at concrete messages (voltdbclient/response.go).
use voltdb_client_go.Common.{
  ◌≡◌, refl, arith, inl, inr, List, All, pos, negsuc, [], ◌∷◌, ◌++◌, map, bad_status,
}
use voltdb_client_go.Word.{unsigned, w8}
use voltdb_client_go.Wire.Encoder.Format.{prefixed}
use voltdb_client_go.Wire.Source.{buffer}
use voltdb_client_go.Response.{
  VoltResponseInfo, good, bad, success, decode_response, decode_result, decode_rows,
  modified_tuples, status_name, empty_volt_response_info,
}
use voltdb_client_go.Response.Loops.{concat}
use voltdb_client_go.Response.Tables.{
  TableHead, IsHead, ResultTable, IsResultTable, TableData, IsSendable, result_table_format,
  rows_table_format, table_of, decode_result-tables, decode_rows-tables,
}
use voltdb_client_go.Response.Status.{decode_response-failure}

abbrev two_tables : VoltResponseInfo
two_tables = record {
  handle = pos 7;
  status = success;
  status_string = [];
  app_status = negsuc 127;
  app_status_string = [];
  cluster_round_trip_time = pos 12;
  num_tables = pos 2;
}

-- The head of a table in a response of the server.
abbrev real_head : TableHead
real_head = record { ttl_length = pos 41; meta_length = pos 17; status_code = negsuc 127 }

real_head-IsHead : IsHead real_head
real_head-IsHead = record { ttl_fits = omega arith; meta_fits = omega arith; accepted = inr refl }

-- One column of TINYINT with two rows, and a table without columns.
abbrev small : TableData
small = record {
  head = real_head;
  types = pos 3 ∷ [];
  names = (b'C' ∷ []) ∷ [];
  rows = (5 ∷ []) ∷ (6 ∷ []) ∷ [];
}

abbrev blank : TableData
blank = record { head = real_head; types = []; names = []; rows = [] }

small-IsSendable : IsSendable small
small-IsSendable = record {
  head_good = real_head-IsHead;
  columns = omega arith;
  named = refl;
  types_fit = (omega arith, tt);
  names_fit = (omega arith, tt);
  rows_count = omega arith;
  rows_fit = (omega arith, (omega arith, tt));
}

blank-IsSendable : IsSendable blank
blank-IsSendable = record {
  head_good = real_head-IsHead;
  columns = omega arith;
  named = refl;
  types_fit = tt;
  names_fit = tt;
  rows_count = omega arith;
  rows_fit = tt;
}

-- Status -2 with the text "no".
decode_response-failure_example :
    decode_response
      (pos 7)
      (buffer (32 ∷ unsigned w8 (negsuc 1) ∷ (prefixed (b'n' ∷ b'o' ∷ []) ++ [])))
    ≡ bad
        (record {
          volt_response = empty_volt_response_info;
          error = bad_status (negsuc 1) (b'n' ∷ b'o' ∷ []);
        })
        (buffer [])
decode_response-failure_example =
    decode_response-failure (pos 7) (pos 32) (negsuc 1) (b'n' ∷ b'o' ∷ []) [] (omega arith)
      (omega arith) (λ e. ground arith) (omega arith)

abbrev changes : List ResultTable
changes =
    record { head = real_head; column_name = modified_tuples; changed = pos 3 }
    ∷ record {
      head = record real_head { status_code = pos 0 };
      column_name = status_name;
      changed = negsuc 0;
    }
    ∷ []

changes-IsResultTable : All IsResultTable changes
changes-IsResultTable = (
  record { head_good = real_head-IsHead; known = inl refl; changed_fits = omega arith },
  (
    record {
      head_good = record { ttl_fits = omega arith; meta_fits = omega arith; accepted = inl refl };
      known = inr refl;
      changed_fits = omega arith;
    },
    tt,
  ),
)

decode_result-tables_example :
    decode_result two_tables (buffer (concat (map result_table_format changes) ++ []))
    ≡ good
        (record { volt_response = two_tables; rows_aff = pos 3 ∷ negsuc 0 ∷ []; ti = pos 0 })
        (buffer [])
decode_result-tables_example = decode_result-tables two_tables changes [] refl changes-IsResultTable

decode_rows-tables_example :
    decode_rows two_tables (buffer (concat (map rows_table_format (small ∷ blank ∷ [])) ++ []))
    ≡ good
        (record {
          volt_response = two_tables;
          tables = table_of small ∷ table_of blank ∷ [];
          table_index = pos 0;
        })
        (buffer [])
decode_rows-tables_example =
    decode_rows-tables two_tables small (blank ∷ []) [] refl
      (small-IsSendable, (blank-IsSendable, tt))
