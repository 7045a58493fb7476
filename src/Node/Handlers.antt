-- ===== src/Node/Handlers.antt =====
-- What `loop` does with an invocation, a response and a timer tick (voltdbclient/node_conn.go).
use voltdb_client_go.Common.{
  Outcome, ℕ, if◌then◌else◌, Bool, true, false, ℤ, ◌+ℤ◌, ◌-ℤ◌, eqb_ℤ, ltb_ℤ, Option, none, some,
  List, [], ◌∷◌, Error, ok, err, panic,
}
use voltdb_client_go.Wire.Source.{Source, buffer}
use voltdb_client_go.Wire.Decoder
use voltdb_client_go.Invocation.{ProcedureInvocation, get_len}
use voltdb_client_go.Response.{
  VoltResponseInfo, good, bad, crash, decode_response, decode_rows, decode_result,
  empty_volt_response_info,
}
use voltdb_client_go.Node.State.{
  continue, NetworkRequest, new_sync_request, new_async_request, Answer, error, rows, result,
  replied, consumed, Loop, Next, running, crashed, find_request, delete_request, put_request, emit,
  ping_handle,
}
use voltdb_client_go.Node.Setup.{serialize, write_to}

unfoldable pub request_of : ProcedureInvocation → ℤ → ℤ → NetworkRequest
unfolding new_sync_request new_async_request
request_of pi len now =
    if pi.async
    then new_async_request pi.handle pi.response_ch pi.is_query pi.arc len pi.timeout now
    else new_sync_request pi.handle pi.response_ch pi.is_query len pi.timeout now

-- The request is entered and its bytes are written.
unfoldable pub accept : ℤ → Outcome ProcedureInvocation ℤ → Loop → Next
accept now (ok len pi) l = write_to (serialize pi) (record l {
  requests = put_request (request_of pi len now) l.requests;
  queued_bytes = l.queued_bytes +ℤ pi.slen;
})
accept now (err _ _) l = crashed
accept now panic l = crashed

unfoldable pub handle_procedure_invocation : ℤ → ProcedureInvocation → Loop → Next
unfolding accept
handle_procedure_invocation now pi l = accept now (get_len pi) l

-- The part that handleSyncResponse and handleAsyncResponse share; `none` is a panic.
unfoldable pub tables_answer : Bool → VoltResponseInfo → Source → Option Answer
tables_answer true rsp s = elim (decode_rows rsp s) [
  | good vr _ ↦ some (rows vr)
  | bad e _ ↦ some (error e)
  | crash ↦ none
]
tables_answer false rsp s = elim (decode_result rsp s) [
  | good vr _ ↦ some (result vr)
  | bad e _ ↦ some (error e)
  | crash ↦ none
]

unfoldable pub decode_answer : ℤ → Bool → Source → Option Answer
unfolding tables_answer
decode_answer handle is_query s = elim (decode_response handle s) [
  | good rsp s' ↦ tables_answer is_query rsp s'
  | bad e _ ↦ some (error e)
  | crash ↦ none
]

-- A call on a nil consumer panics.
unfoldable pub consume : Option ℕ → Answer → Loop → Next
unfolding emit
consume none a l = crashed
consume (some c) a l = running (emit (consumed c a) l)

unfoldable pub deliver : NetworkRequest → Option Answer → Loop → Next
unfolding emit consume
deliver req none l = crashed
deliver req (some a) l =
    if req.sync then running (emit (replied req.ch a) l) else consume req.arc a l

-- The request of a response is taken out of the map and answered.
unfoldable pub complete : ℤ → Source → Option NetworkRequest → Loop → Next
unfolding deliver
complete handle s none l = running l
complete handle s (some req) l = deliver req (decode_answer handle req.query s) (record l {
  queued_bytes = l.queued_bytes -ℤ req.num_bytes;
  requests = delete_request handle l.requests;
})

unfoldable pub dispatch : Outcome Source ℤ → Loop → Next
unfolding complete
dispatch (ok handle s) l =
    if eqb_ℤ handle ping_handle
    then running (record l { ping_outstanding = false })
    else complete handle s (find_request handle l.requests) l
dispatch (err _ _) l = running l
dispatch panic l = crashed

-- A message whose first byte `listen` has taken off: the handle, and then the response.
unfoldable pub handle_response : List ℕ → Loop → Next
unfolding dispatch
handle_response message l = dispatch (Decoder.int64 (buffer message)) l

unfoldable pub timed_out : ℤ → NetworkRequest → Bool
timed_out now req = ltb_ℤ (req.submitted +ℤ req.timeout) now

unfoldable pub timeout_error : Answer
timeout_error = error (record { volt_response = empty_volt_response_info; error = Error.timeout })

unfoldable pub expire_one : NetworkRequest → Loop → Next
unfolding consume timeout_error
expire_one req l = consume req.arc timeout_error (record l {
  queued_bytes = l.queued_bytes -ℤ req.num_bytes;
  requests = delete_request req.handle l.requests;
})

-- The loop over the requests at a tick; Go's order of a map is some order of the list.
unfoldable pub expire : ℤ → List NetworkRequest → Loop → Next
unfolding expire_one timed_out
expire now [] l = running l
expire now (req ∷ reqs) l = elim (timed_out now req) [
  | true ↦ continue (expire_one req l) (expire now reqs)
  | false ↦ expire now reqs l
]
