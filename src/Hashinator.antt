-- ===== src/Hashinator.antt =====
-- The hashinator (voltdbclient/hashinator.go) and the token table that it searches
-- (voltdbclient/utils.go). The hash is a parameter: murmur3 is a package of its own, and `murmur b`
-- is the first of the two numbers that its Sum128 returns. The configuration is given as the pairs
-- that gzip, JSON and strconv.Atoi make of it.
use voltdb_client_go.Common.{
  ℕ, zero, suc, ◌+◌, ◌/◌, ◌^◌, ltb, if◌then◌else◌, not, Bool, true, false, ℤ, pos, ltb_ℤ, Option,
  none, some, List, [], ◌∷◌, ◌++◌, length, get_elem?, replicate,
}
use voltdb_client_go.Word.{unsigned, put_uint, w64}
use voltdb_client_go.Wire.Value.{Scalar, Value}
pub mod Search
pub mod Padding
mod Tests

pub record Token2Partition : Type 0 where
  pub token : ℤ
  pub partition : ℤ

-- sort.Search with the bounds of its loop; it is given enough fuel by `search`.
unfoldable pub search_loop : ℕ → (ℕ → Bool) → ℕ → ℕ → ℕ
search_loop zero f i j = i
search_loop (suc n) f i j =
    let h = (i + j) / 2 in
    let rest = search_loop n f (if f h then i else suc h) (if f h then h else j) in
    if ltb i j then rest else i

unfoldable pub search : ℕ → (ℕ → Bool) → ℕ
unfolding search_loop
search n f = search_loop n f 0 n

-- `a[i].token >= token`, at an index of the table.
unfoldable pub reaches : ℤ → Option Token2Partition → Bool
reaches token none = true
reaches token (some t) = not (ltb_ℤ t.token token)

unfoldable pub partition_at : List Token2Partition → ℕ → Option ℤ
partition_at a zero = none
partition_at a (suc t) = elim (get_elem? a t) [ none ↦ none | some p ↦ some p.partition ]

-- `none` where the index is -1 and the code panics.
unfoldable pub search_token2_partitions : List Token2Partition → ℤ → Option ℤ
unfolding search reaches partition_at
search_token2_partitions a token =
    partition_at a (search (length a) (λ i. reaches token (get_elem? a i)))

-- sort.Sort by the token; entries with equal tokens may come in any order.
unfoldable pub insert_token : Token2Partition → List Token2Partition → List Token2Partition
insert_token t [] = t ∷ []
insert_token t (u ∷ us) =
    let rest = insert_token t us in if ltb_ℤ u.token t.token then u ∷ rest else t ∷ u ∷ us

unfoldable pub sort_tokens : List Token2Partition → List Token2Partition
unfolding insert_token
sort_tokens [] = []
sort_tokens (t ∷ ts) = insert_token t (sort_tokens ts)

-- An element of make(Token2PartitionSlice, 128).
abbrev pub zero_token : Token2Partition
zero_token = record { token = pos 0; partition = pos 0 }

-- unmarshalJSONConfig, from the pairs of the map in the order that the loop meets them.
unfoldable pub unmarshal_json_config : List Token2Partition → List Token2Partition
unfolding sort_tokens
unmarshal_json_config sk = sort_tokens (replicate 128 zero_token ++ sk)

-- The low 32 bits are dropped; the rest is not negative, as Go's int has 64 bits.
unfoldable pub hash_of : ℕ → ℤ
hash_of v1 = pos (v1 / 2 ^ 32)

unfoldable pub reversed : List ℕ → List ℕ
reversed [] = []
reversed (b ∷ bs) = reversed bs ++ b ∷ []

-- binary.LittleEndian.PutUint64
unfoldable pub put_uint64_le : ℕ → List ℕ
unfolding reversed
put_uint64_le v = reversed (put_uint 8 v)

-- The bytes that are hashed; a value of any type but these is hashed as 0. A value of type byte,
-- which Marshal refuses, and a byte slice of a defined type are not told apart from their kind in
-- Value; the code hashes the first by its number and the second as 0.
unfoldable pub hashed_bytes : Value → List ℕ
unfolding put_uint64_le
hashed_bytes (Value.bytes b) = b
hashed_bytes (Value.scalar (Scalar.string s)) = s
hashed_bytes (Value.scalar (Scalar.int8 v)) = put_uint64_le (unsigned w64 v)
hashed_bytes (Value.scalar (Scalar.int16 v)) = put_uint64_le (unsigned w64 v)
hashed_bytes (Value.scalar (Scalar.int32 v)) = put_uint64_le (unsigned w64 v)
hashed_bytes (Value.scalar (Scalar.int64 v)) = put_uint64_le (unsigned w64 v)
hashed_bytes _ = put_uint64_le 0

unfoldable pub get_hashed_partition_for_parameter :
    (List ℕ → ℕ) → List Token2Partition → Value → Option ℤ
unfolding search_token2_partitions hash_of hashed_bytes
get_hashed_partition_for_parameter murmur tp Value.nil = some (pos 0)
get_hashed_partition_for_parameter murmur tp v =
    search_token2_partitions tp (hash_of (murmur (hashed_bytes v)))
