-- ===== src/Hashinator/Tests.antt =====
-- The theorems about the token table at a concrete configuration (voltdbclient/hashinator.go,
-- voltdbclient/utils.go).
use voltdb_client_go.Common.{◌≡◌, refl, inl, inr, arith, ℤ, pos, negsuc, some, List, [], ◌∷◌}
use voltdb_client_go.Hashinator.{Token2Partition, search_token2_partitions, unmarshal_json_config}
use voltdb_client_go.Hashinator.Search.{floor, search_token2_partitions-floor}
use voltdb_client_go.Hashinator.Padding.{unmarshal_json_config-zero}

abbrev entry : ℤ → ℤ → Token2Partition
entry t p = record { token = t; partition = p }

abbrev table : List Token2Partition
table = entry (negsuc 9) (pos 1) ∷ entry (pos 5) (pos 2) ∷ entry (pos 8) (pos 3) ∷ []

search_token2_partitions-floor_example :
    search_token2_partitions table (pos 7) ≡ floor (pos 7) table
search_token2_partitions-floor_example =
    search_token2_partitions-floor table (pos 7)
      ((omega arith, (omega arith, tt)), ((omega arith, tt), (tt, tt)))

unmarshal_json_config-zero_example :
    search_token2_partitions (unmarshal_json_config table) (pos 3) ≡ some (pos 0)
unmarshal_json_config-zero_example =
    unmarshal_json_config-zero table 3 (omega arith)
      (inr (inl refl), (inr (inr refl), (inr (inr refl), tt)))
