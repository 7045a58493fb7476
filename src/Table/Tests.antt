-- ===== src/Table/Tests.antt =====
-- The theorem about getBytes at a concrete row (voltdbclient/table.go).
use voltdb_client_go.Common.{pos, none, List, [], ◌∷◌, map}
use voltdb_client_go.Table.{VoltTable}
use voltdb_client_go.Table.Offsets.{Kind, Field, type_of, row_of}

abbrev columns : List Field
columns =
    Field.fixed Kind.smallint (1 ∷ 2 ∷ [])
    ∷ Field.string (b'a' ∷ b'b' ∷ b'c' ∷ [])
    ∷ Field.null_varbinary
    ∷ Field.fixed Kind.tinyint (9 ∷ [])
    ∷ []

abbrev at_row : VoltTable
at_row = record {
  column_count = pos 4;
  column_types = map type_of columns;
  column_names = [];
  num_rows = pos 1;
  rows = row_of columns ∷ [];
  row_index = pos 0;
  cn_to_ci = [];
  column_offsets = none;
}
