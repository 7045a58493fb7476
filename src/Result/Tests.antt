-- ===== src/Result/Tests.antt =====
-- The theorems about results at concrete responses (voltdbclient/result.go).
use voltdb_client_go.Common.{ℕ, ◌≡◌, arith, ℤ, pos, negsuc, some, List, [], ◌∷◌, map, get_elem?}
use voltdb_client_go.Response.{VoltResponseInfo, success, new_volt_result}
use voltdb_client_go.Result.{rows_affected}
use voltdb_client_go.Result.Cursor.{Call, moved_all, rows_affected-some, visit, visit-all}

abbrev info : VoltResponseInfo
info = record {
  handle = pos 7;
  status = success;
  status_string = [];
  app_status = negsuc 127;
  app_status_string = [];
  cluster_round_trip_time = pos 12;
  num_tables = pos 3;
}

abbrev calls : List Call
calls = Call.next ∷ Call.to (negsuc 0) ∷ Call.to (pos 9) ∷ Call.next ∷ []

rows_affected-some_example :
    (i : ℕ) × (a : ℤ) × ((moved_all calls (new_volt_result info (pos 4 ∷ pos 0 ∷ pos 6 ∷ []))).ti
      ≡ pos i)
    × (get_elem? (pos 4 ∷ pos 0 ∷ pos 6 ∷ []) i ≡ some a)
    × (rows_affected (moved_all calls (new_volt_result info (pos 4 ∷ pos 0 ∷ pos 6 ∷ []))) ≡ some a)
rows_affected-some_example = rows_affected-some info (pos 4) (pos 0 ∷ pos 6 ∷ []) calls

visit-all_example :
    visit 5 (new_volt_result info (pos 4 ∷ pos 0 ∷ pos 6 ∷ []))
    ≡ map some (pos 4 ∷ pos 0 ∷ pos 6 ∷ [])
visit-all_example = visit-all info (pos 4) (pos 0 ∷ pos 6 ∷ []) 5 (omega arith) (omega arith)
