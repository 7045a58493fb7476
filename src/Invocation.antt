-- ===== src/Invocation.antt =====
-- A procedure invocation and its serialized form (voltdbclient/procedure_invocation.go and EncodePI
-- of voltdbclient/network_writer.go). A response channel and a consumer are known by a number, a
-- timeout is a number of nanoseconds.
use voltdb_client_go.Common.{
  ℕ, suc, ◌+◌, ◌≡◌, Bool, true, false, ℤ, pos, negsuc, eqb_ℤ, if◌then◌else◌, Option, none, some,
  List, [], ◌∷◌, length, ok, err, panic, M, Outcome, ◌>>=◌, ◌>>◌, pure,
}
use voltdb_client_go.Word.{wrap, w16, w32}
use voltdb_client_go.Wire.Value.{Scalar, Value, Values, count}
use voltdb_client_go.Wire.Encoder
use voltdb_client_go.Wire.Encoder.{Encoder}
pub mod Frame
pub mod Faults
mod Tests

pub record ProcedureInvocation : Type 0 where
  pub handle : ℤ
  pub is_query : Bool
  pub query : List ℕ
  pub params : List Value
  pub response_ch : Option ℕ
  pub timeout : ℤ
  pub arc : Option ℕ
  pub async : Bool
  pub slen : ℤ

unfoldable pub new_sync_procedure_invocation :
    ℤ → Bool → List ℕ → List Value → ℕ → ℤ → ProcedureInvocation
new_sync_procedure_invocation handle is_query query params response_ch timeout = record {
  handle = handle;
  is_query = is_query;
  query = query;
  params = params;
  response_ch = some response_ch;
  timeout = timeout;
  arc = none;
  async = false;
  slen = negsuc 0;
}

unfoldable pub new_async_procedure_invocation :
    ℤ → Bool → List ℕ → List Value → ℤ → ℕ → ProcedureInvocation
new_async_procedure_invocation handle is_query query params timeout arc = record {
  handle = handle;
  is_query = is_query;
  query = query;
  params = params;
  response_ch = none;
  timeout = timeout;
  arc = some arc;
  async = true;
  slen = negsuc 0;
}

unfoldable pub new_procedure_invocation_by_handle :
    ℤ → Bool → List ℕ → List Value → ProcedureInvocation
new_procedure_invocation_by_handle handle is_query query params = record {
  handle = handle;
  is_query = is_query;
  query = query;
  params = params;
  response_ch = none;
  timeout = pos 0;
  arc = none;
  async = true;
  slen = negsuc 0;
}

-- By the kind of a value, so that a defined type counts as its underlying type.
unfoldable pub scalar_len : Scalar → ℕ
scalar_len (Scalar.bool b) = 2
scalar_len (Scalar.int8 v) = 2
scalar_len (Scalar.int16 v) = 3
scalar_len (Scalar.int32 v) = 5
scalar_len (Scalar.int64 v) = 9
scalar_len (Scalar.float64 v) = 9
scalar_len (Scalar.string s) = 5 + length s

-- `none` where calcParamLen panics.
unfoldable pub calc_param_len : Value → Option ℕ
unfolding scalar_len
calc_param_len Value.nil = some 1
calc_param_len (Value.scalar s) = some (scalar_len s)
calc_param_len (Value.named s) = some (scalar_len s)
calc_param_len (Value.time t) = some 9
calc_param_len (Value.bytes b) = some (5 + length b)
calc_param_len (Value.slice vs) = some (5 + count vs)
calc_param_len (Value.ptr v) = none
calc_param_len Value.nil_ptr = none
calc_param_len Value.struct = none
calc_param_len Value.other = none

-- The loop of calcLen, with the length so far.
unfoldable pub add_param_lens : ℕ → List Value → Option ℕ
add_param_lens slen [] = some slen
add_param_lens slen (v ∷ vs) = elim (calc_param_len v) [
  | none ↦ none
  | some n ↦ add_param_lens (slen + n) vs
]

unfoldable pub calc_len : ProcedureInvocation → Option ℕ
unfolding add_param_lens
calc_len pi = add_param_lens (15 + length pi.query) pi.params

-- The length is computed at the first call and kept.
unfoldable pub get_len : M ProcedureInvocation ℤ
unfolding calc_len
get_len pi =
    if eqb_ℤ pi.slen (negsuc 0)
    then elim (calc_len pi) [ none ↦ panic | some n ↦ ok (pos n) (record pi { slen = pos n }) ]
    else ok pi.slen pi

-- What EncodePI writes behind the length.
unfoldable pub encode_body : ProcedureInvocation → M Encoder (Unit {0})
encode_body pi = do
  Encoder.byte (pos 0)
  Encoder.string pi.query
  Encoder.int64 pi.handle
  Encoder.int16 (wrap w16 (pos (length pi.params)))
  Encoder.marshal_all pi.params

-- EncodePI; its value is the invocation, which keeps its length.
unfoldable pub encode_pi : ProcedureInvocation → M Encoder ProcedureInvocation
unfolding get_len encode_body
encode_pi pi e = elim (get_len pi) [
  | ok n pi' ↦ (do Encoder.int32 (wrap w32 n); encode_body pi; pure pi') e
  | err x _ ↦ err x e
  | panic ↦ panic
]
