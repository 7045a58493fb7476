-- ===== src/Benchmark/Payload.antt =====
-- The payload processor of voltkv (examples/voltkv/payload_processor.go). gzip and fmt.Sprintf are
-- parameters, and so is what rand draws: a number, of which Intn takes the remainder.
use voltdb_client_go.Common.{
  ℕ, suc, ◌+◌, ◌-◌, ◌%◌, ltb, if◌then◌else◌, Bool, ℤ, pos, negsuc, ◌+ℤ◌, ◌-ℤ◌, Option, none, some,
  List, [], ◌∷◌, ◌++◌, length, take, drop, replicate,
}
use mathlib.Core.Option
use voltdb_client_go.Benchmark.Config.{KvConfig}
use voltdb_client_go.Word.{wrap, w64}

pub record PayloadProcessor : Type 0 where
  pub key_size : ℤ
  pub min_value_size : ℤ
  pub max_value_size : ℤ
  pub entropy : ℤ
  pub pool_size : ℤ
  pub use_compression : Bool

-- rand.Intn, which panics unless its argument is positive.
unfoldable pub intn : ℤ → ℕ → Option ℕ
intn (pos ℕ.zero) r = none
intn (pos (suc n)) r = some (r % suc n)
intn (negsuc n) r = none

-- `byte(rand.Intn(127) % entropy)`; Go's remainder has the sign of the dividend.
unfoldable pub entropy_byte : ℤ → ℕ → Option ℕ
entropy_byte (pos ℕ.zero) r = none
entropy_byte (pos (suc n)) r = some ((r % 127) % suc n)
entropy_byte (negsuc n) r = some ((r % 127) % suc n)

-- The loop that fills the entropy bytes, with a draw for each.
unfoldable pub fill_entropy : ℤ → List ℕ → Option (List ℕ)
unfolding entropy_byte
fill_entropy entropy [] = some []
fill_entropy entropy (r ∷ rs) = elim (entropy_byte entropy r) [
  | none ↦ none
  | some b ↦ elim (fill_entropy entropy rs) [ none ↦ none | some bs ↦ some (b ∷ bs) ]
]

-- The bytes.Reader `entropyBytes`: all of its bytes, and how many have been read.
pub record Reader : Type 0 where
  pub bytes : List ℕ
  pub position : ℕ

unfoldable pub new_payload_processor :
    (key_size min_value_size max_value_size entropy pool_size : ℤ) (use_compression : Bool)
    → List ℕ
    → Option (PayloadProcessor × Reader)
unfolding fill_entropy
new_payload_processor key_size min_value_size max_value_size entropy pool_size use_compression
      draws =
    let proc : PayloadProcessor = record {
      key_size = key_size;
      min_value_size = min_value_size;
      max_value_size = max_value_size;
      entropy = entropy;
      pool_size = pool_size;
      use_compression = use_compression;
    } in
    Option.map (λ bs. (proc, record { bytes = bs; position = 0 })) (fill_entropy entropy draws)

-- The processor of newBenchmark.
unfoldable pub new_benchmark : KvConfig → List ℕ → Option (PayloadProcessor × Reader)
unfolding new_payload_processor
new_benchmark config =
    new_payload_processor config.keysize config.minvaluesize config.maxvaluesize config.entropy
      config.poolsize config.usecompression

-- `entropyBytes.Read(rawValue)` into `n` zeros.
unfoldable pub read_value : ℕ → Reader → List ℕ × Reader
read_value n r =
    let got = take n (drop r.position r.bytes) in
    (got ++ replicate (n - length got) 0, record r { position = r.position + length got })

unfoldable pub raw_value : ℕ → Reader → List ℕ × Reader
unfolding read_value
raw_value n r =
    if ltb n (length r.bytes - r.position)
    then read_value n r
    else read_value n (record r { position = 0 })

-- make panics on a negative size.
unfoldable pub as_size : ℤ → Option ℕ
as_size (pos n) = some n
as_size (negsuc n) = none

unfoldable pub size_from : ℤ → Option ℕ → Option ℕ
unfolding as_size
size_from least none = none
size_from least (some k) = as_size (wrap w64 (least +ℤ pos k))

-- `proc.minValueSize+rand.Intn(proc.maxValueSize-proc.minValueSize+1)`
unfoldable pub value_size : PayloadProcessor → ℕ → Option ℕ
unfolding intn size_from
value_size proc draw =
    size_from proc.min_value_size
      (intn (wrap w64 ((proc.max_value_size -ℤ proc.min_value_size) +ℤ pos 1)) draw)

pub record Stored : Type 0 where
  pub key : List ℕ
  pub raw : List ℕ
  pub store : List ℕ
  pub rest : Reader

module _ (sprintf : ℤ → ℕ → List ℕ) where
  unfoldable pub generate_random_key_for_retrieval : PayloadProcessor → ℕ → Option (List ℕ)
  unfolding intn
  generate_random_key_for_retrieval proc draw =
      Option.map (sprintf proc.key_size) (intn proc.pool_size draw)

  module _ (to_gzip : List ℕ → List ℕ) where
    unfoldable pub stored : PayloadProcessor → List ℕ → List ℕ × Reader → Stored
    stored proc key (raw, rest) = record {
      key = key;
      raw = raw;
      store = if proc.use_compression then to_gzip raw else raw;
      rest = rest;
    }

    unfoldable pub generated :
        PayloadProcessor → Option (List ℕ) → Option ℕ → Reader → Option Stored
    unfolding raw_value stored
    generated proc none size r = none
    generated proc (some key) none r = none
    generated proc (some key) (some n) r = some (stored proc key (raw_value n r))

    -- The draws are those of the key and of the size.
    unfoldable pub generate_for_store : PayloadProcessor → ℕ → ℕ → Reader → Option Stored
    unfolding generate_random_key_for_retrieval value_size generated
    generate_for_store proc key_draw size_draw r =
        generated proc (generate_random_key_for_retrieval proc key_draw) (value_size proc size_draw)
          r

unfoldable pub retrieve_from_store : (List ℕ → List ℕ) → PayloadProcessor → List ℕ → List ℕ × List ℕ
retrieve_from_store from_gzip proc store =
    if proc.use_compression then (from_gzip store, store) else (store, store)
