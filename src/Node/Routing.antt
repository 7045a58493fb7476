-- ===== src/Node/Routing.antt =====
-- Which request a response goes to, and what a timer tick does to requests that wait too long
-- (voltdbclient/node_conn.go).
use voltdb_client_go.Common.{
  ℕ, ◌≡◌, ap, ◌∙◌, arith, true, false, ◌≢◌, ℤ, ◌+ℤ◌, ◌-ℤ◌, eqb_ℤ, ltb_ℤ, none, some, List, [], ◌∷◌,
  ◌++◌, Bool-cases, Option-cases, inl, inr,
}
use voltdb_client_go.Word.{Fits, put_uint, unsigned, w64}
use voltdb_client_go.Wire.Source.{buffer}
use voltdb_client_go.Wire.Decoder
use voltdb_client_go.Wire.Decoder.Reads.{Reads-run, Reads-int64}
use voltdb_client_go.Invocation.{ProcedureInvocation}
use voltdb_client_go.Node.State.{
  NetworkRequest, new_sync_request, Answer, replied, Loop, running, crashed, find_request,
  delete_request, continue, emit, ping_handle,
}
use voltdb_client_go.Node.Handlers.{
  request_of, consume, deliver, complete, dispatch, handle_response, expire_one, expire, timed_out,
  decode_answer,
}
use voltdb_client_go.Node.Step.{Event, handle_event}
use voltdb_client_go.Node.Requests.{find-delete}

-- A response message: the handle and what follows.
abbrev pub response_message : ℤ → List ℕ → List ℕ
response_message h body = put_uint 8 (unsigned w64 h) ++ body

dispatch-message :
    (h : ℤ) (body : List ℕ) (l : Loop)
    → Fits w64 h
    → h ≢ ping_handle
    → handle_response (response_message h body) l
      ≡ complete h (buffer body) (find_request h l.requests) l
unfolding handle_response dispatch
dispatch-message h body l f n =
    let other : eqb_ℤ h ping_handle ≡ false = ground arith in
    rw (Reads-run Decoder.int64 (put_uint 8 (unsigned w64 h)) h (Reads-int64 h f) body)
      (rw (dispatch, other))

-- The loop after the answer to a synchronous request.
abbrev pub answered : ℤ → NetworkRequest → Answer → Loop → Loop
answered h req a l = record l {
  queued_bytes = l.queued_bytes -ℤ req.num_bytes;
  requests = delete_request h l.requests;
  effects = replied req.ch a ∷ l.effects;
}

-- The response to an outstanding synchronous request, if it is decoded without a panic, is sent to
-- the channel of that request, which is taken out of the map with its bytes; a further response
-- under that handle is dropped. The handle is an int64 and not that of a ping.
pub respond_once :
    (h : ℤ) (body late : List ℕ) (req : NetworkRequest) (a : Answer) (l : Loop)
    → Fits w64 h
    → h ≢ ping_handle
    → find_request h l.requests ≡ some req
    → req.sync ≡ true
    → decode_answer h req.query (buffer body) ≡ some a
    → (handle_response (response_message h body) l ≡ running (answered h req a l))
      × (handle_response (response_message h late) (answered h req a l)
          ≡ running (answered h req a l))
unfolding complete deliver emit
respond_once h body late req a l f n e s d = (
  dispatch-message h body l f n ∙ rw (e, complete) (rw (d, deliver) (rw s)),
  dispatch-message h late (answered h req a l) f n ∙ rw (find-delete h l.requests, complete),
)

crashes-first :
    (now : ℤ) (req : NetworkRequest) (post : List NetworkRequest) (l : Loop)
    → req.arc ≡ none
    → timed_out now req ≡ true
    → expire now (req ∷ post) l ≡ crashed
unfolding expire expire_one consume continue
crashes-first now req post l n t = rw (t, expire) (rw (n, consume))

crashes-after :
    (now : ℤ) (pre : List NetworkRequest) (req : NetworkRequest) (post : List NetworkRequest)
    (l : Loop)
    → req.arc ≡ none
    → timed_out now req ≡ true
    → expire now (pre ++ req ∷ post) l ≡ crashed
unfolding expire expire_one consume continue
crashes-after now [] req post l n t = crashes-first now req post l n t
crashes-after now (x ∷ pre) req post l n t = elim (Bool-cases (timed_out now x)) [
  | inl late ↦ elim (Option-cases x.arc) [
    | inl e ↦ crashes-first now x (pre ++ req ∷ post) l e late
    | inr (c, e) ↦ rw (late, expire) (rw (e, consume) (crashes-after now pre req post _ n t))
  ]
  | inr early ↦ rw (early, expire) (crashes-after now pre req post l n t)
]

-- A synchronous request has no consumer. If one is outstanding beyond its timeout, the next timer
-- tick calls a method of the nil consumer, and the process panics.
pub tick_crashes :
    (now sent len : ℤ) (pi : ProcedureInvocation) (pre post : List NetworkRequest) (l : Loop)
    → pi.async ≡ false
    → l.requests ≡ pre ++ request_of pi len sent ∷ post
    → ltb_ℤ (sent +ℤ pi.timeout) now ≡ true
    → handle_event now Event.tick l ≡ crashed
unfolding handle_event request_of new_sync_request timed_out
tick_crashes now sent len pi pre post l sync e late =
    ap (λ rs. expire now rs l) e
    ∙ crashes-after now pre (request_of pi len sent) post l (rw (sync)) (rw (sync, late))
