-- ===== src/Common/Results.antt =====
-- State, Go's error results and panics. A computation over a state `S` ends in a value, in an
-- error that the code returns, or in a panic; the state that an error leaves behind is kept.
use Prim.Native.Nat.{ℕ}
use mathlib.Core.Path.{◌≡◌}
use mathlib.Core.Bool.{Bool, true, false}
use mathlib.Core.List.{List}
use voltdb_client_go.Common.Int.{ℤ}

-- The error values that the code makes, or that its readers return.
pub data Error : Type 0 where
  eof : Error  -- io.EOF
  unexpected_eof : Error  -- io.ErrUnexpectedEOF
  unknown_param : Error  -- errUnknownParam
  auth_failed : ℤ → Error  -- "voltdbclient:authorization failed with code %d"
  bad_status : ℤ → List ℕ → Error  -- "Bad status %s %s"
  bad_app_status : ℤ → List ℕ → Error  -- "Bad app status %d %s"
  negative_num_tables : Error  -- "Negative value for numTables"
  bad_table_status : ℤ → Error  -- "Bad return status on table %d"
  unexpected_columns : Error  -- "Unexpected number of columns for result"
  unexpected_column_type : Error  -- "Unexpected columntype for result"
  unexpected_column_name : Error  -- "Expected 'modified_tuples'  or STATUS ..."
  unexpected_rows : Error  -- "Expected one row for result"
  unexpected_row_length : Error  -- "Expected a long value result"
  unsupported_type : ℤ → Error  -- "Not supporting ARRAY", ..., "Unexpected type %d"
  wrong_width : ℤ → Error  -- "Did not find at ... column at index %d"
  no_column : List ℕ → Error  -- "column name %v was not found"
  no_table : Error  -- "No valid table"
  wrong_count : ℤ → ℕ → Error  -- "Wrong number of values to Rows.Next, ..."
  failed_column : ℕ → Error → Error  -- "Failed to get ... at column index %d %s"
  not_topology : Error  -- "Not a validated topo statistic."
  incomplete_topology : Error  -- "Topology description received from Volt was incomplete ..."
  legacy_hashinator : Error  -- errLegacyHashinator, "Not support Legacy hashinator."
  bad_hash_config : Error  -- an error of newHashinatorElastic
  timeout : Error  -- "timeout", "timeout waiting for transaction permit"

pub data Outcome (S : Type 0) (A : Type 0) : Type 0 where
  ok : A → S → Outcome S A
  err : Error → S → Outcome S A
  panic : Outcome S A

abbrev pub M : Type 0 → Type 0 → Type 0
M S A = S → Outcome S A

abbrev pub bind : {S A B : Type 0} → Outcome S A → (A → M S B) → Outcome S B
bind (ok a s) f = f a s
bind (err e s) f = err e s
bind panic f = panic

infixl 5 ◌>>=◌ ◌>>◌
abbrev pub ◌>>=◌ : {S A B : Type 0} → M S A → (A → M S B) → M S B
◌>>=◌ m f s = bind (m s) f

abbrev pub ◌>>◌ : {S A B : Type 0} → M S A → M S B → M S B
m >> k = m >>= λ _. k

abbrev pub pure : {S A : Type 0} → A → M S A
pure a s = ok a s

abbrev pub fail : {S A : Type 0} → Error → M S A
fail e s = err e s

abbrev pub panics : {S A : Type 0} → M S A
panics s = panic

-- `if cond { return ..., errors.New(...) }`
abbrev pub guard : {S : Type 0} → Bool → Error → M S (Unit {0})
guard true e s = ok tt s
guard false e s = err e s

-- To step a bind whose first part is known.
pub >>=-ok :
    {S A B : Type 0} (m : M S A) (f : A → M S B) {a : A} {s t : S}
    → m s ≡ ok a t
    → (m >>= f) s ≡ f a t
>>=-ok m f h = rw h

pub >>=-err :
    {S A B : Type 0} (m : M S A) (f : A → M S B) {e : Error} {s t : S}
    → m s ≡ err e t
    → (m >>= f) s ≡ err e t
>>=-err m f h = rw h
