-- ===== src/Benchmark/Config.antt =====
-- The configurations of the benchmarks (examples/voltkv/kv_config.go, examples/voter/voter_config.go)
-- and their validation. The fields are what the flags have been parsed to. A float64 is known by its
-- tests against 0 and 1.
use voltdb_client_go.Common.{ℕ, Bool, not, ◌||◌, ◌&&◌, if◌then◌else◌, ℤ, pos, ltb_ℤ, List, [], ◌∷◌}
use voltdb_client_go.Table.{bytes_eq}

-- runTypes
abbrev pub async : List ℕ
async = b'a' ∷ b's' ∷ b'y' ∷ b'n' ∷ b'c' ∷ []

abbrev pub sync : List ℕ
sync = b's' ∷ b'y' ∷ b'n' ∷ b'c' ∷ []

abbrev pub sql : List ℕ
sql = b's' ∷ b'q' ∷ b'l' ∷ []

-- The values of the flags of voltkv.
pub record KvConfig : Type 0 where
  pub displayinterval : ℤ
  pub duration : ℤ
  pub warmup : ℤ
  pub servers : List ℕ
  pub poolsize : ℤ
  pub preload : Bool
  pub getputratio_below : Bool  -- getputratio < 0
  pub getputratio_above : Bool  -- getputratio > 1
  pub keysize : ℤ
  pub minvaluesize : ℤ
  pub maxvaluesize : ℤ
  pub entropy : ℤ
  pub usecompression : Bool
  pub goroutines : ℤ
  pub runtype : List ℕ

-- What a validation says is wrong.
pub data Complaint : Type 0 where
  bad_displayinterval bad_duration bad_poolsize bad_getputratio bad_keysize : Complaint
  bad_minvaluesize bad_maxvaluesize bad_entropy bad_goroutines bad_runtype : Complaint
  bad_contestants bad_maxvotes : Complaint

pub data Checked (A : Type 0) : Type 0 where
  accepted : A → Checked A
  rejected : Complaint → Checked A

-- `n <= 0`
unfoldable pub no_more_than_zero : ℤ → Bool
no_more_than_zero n = not (ltb_ℤ (pos 0) n)

unfoldable pub unknown_runtype : List ℕ → Bool
unfolding bytes_eq
unknown_runtype t = not (bytes_eq t async) && (not (bytes_eq t sync) && not (bytes_eq t sql))

unfoldable pub new_kv_config : KvConfig → Checked KvConfig
unfolding no_more_than_zero unknown_runtype
new_kv_config kv =
    if no_more_than_zero kv.displayinterval
    then rejected bad_displayinterval
    else if no_more_than_zero kv.duration
    then rejected bad_duration
    else if no_more_than_zero kv.poolsize
    then rejected bad_poolsize
    else if kv.getputratio_below || kv.getputratio_above
    then rejected bad_getputratio
    else if no_more_than_zero kv.keysize || ltb_ℤ (pos 250) kv.keysize
    then rejected bad_keysize
    else if no_more_than_zero kv.minvaluesize
    then rejected bad_minvaluesize
    else if no_more_than_zero kv.maxvaluesize
    then rejected bad_maxvaluesize
    else if no_more_than_zero kv.entropy || ltb_ℤ (pos 127) kv.entropy
    then rejected bad_entropy
    else if no_more_than_zero kv.goroutines
    then rejected bad_goroutines
    else if unknown_runtype kv.runtype
    then rejected bad_runtype
    else accepted kv

-- The values of the flags of voter.
pub record VoterConfig : Type 0 where
  pub displayinterval : ℤ
  pub duration : ℤ
  pub warmup : ℤ
  pub servers : List ℕ
  pub contestants : ℤ
  pub maxvotes : ℤ
  pub statsfile : List ℕ
  pub goroutines : ℤ
  pub runtype : List ℕ

unfoldable pub new_voter_config : VoterConfig → Checked VoterConfig
unfolding no_more_than_zero unknown_runtype
new_voter_config voter =
    if no_more_than_zero voter.displayinterval
    then rejected bad_displayinterval
    else if no_more_than_zero voter.duration
    then rejected bad_duration
    else if no_more_than_zero voter.contestants
    then rejected bad_contestants
    else if no_more_than_zero voter.maxvotes
    then rejected bad_maxvotes
    else if no_more_than_zero voter.goroutines
    then rejected bad_goroutines
    else if unknown_runtype voter.runtype
    then rejected bad_runtype
    else accepted voter
