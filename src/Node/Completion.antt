-- ===== src/Node/Completion.antt =====
-- Responses and timeouts keep the byte count of `loop` (voltdbclient/node_conn.go) exact.
use voltdb_client_go.Common.{
  Outcome, eqb_ℤ→eq, ℕ, ◌≡◌, refl, sym, ap, ◌∙◌, arith, false, ℤ, ◌-ℤ◌, eqb_ℤ, Option, none, some,
  List, [], ◌∷◌, Bool-cases, inl, inr, ok, err, panic,
}
use voltdb_client_go.Wire.Source.{Source}
use voltdb_client_go.Node.State.{
  NetworkRequest, Loop, Next, running, find_request, delete_request, emit, Answer, continue,
  ping_handle, replied,
}
use voltdb_client_go.Node.Handlers.{
  dispatch, consume, deliver, complete, expire_one, expire, timed_out, decode_answer, timeout_error,
}
use voltdb_client_go.Node.Requests.{
  Distinct, AllHeld, AllHeld-delete, Distinct-delete, total-delete,
}
use voltdb_client_go.Node.Balance.{IsBalanced, After, After-if}

-- The loop without a request that it holds.
abbrev pub without : NetworkRequest → Loop → Loop
without req l = record l {
  queued_bytes = l.queued_bytes -ℤ req.num_bytes;
  requests = delete_request req.handle l.requests;
}

pub without-IsBalanced :
    (req : NetworkRequest) (l : Loop)
    → IsBalanced l
    → find_request req.handle l.requests ≡ some req
    → IsBalanced (without req l)
without-IsBalanced req l v e = record {
  exact =
      ap (λ q. q -ℤ req.num_bytes) v.exact
      ∙ sym (total-delete req.handle req l.requests v.distinct e);
  distinct = Distinct-delete req.handle l.requests v.distinct;
}

pub consume-IsBalanced :
    (c : Option ℕ) (a : Answer) (l : Loop) → IsBalanced l → After IsBalanced (consume c a l)
unfolding consume emit
consume-IsBalanced none a l v = tt
consume-IsBalanced (some c) a l v = record { exact = v.exact; distinct = v.distinct }

pub deliver-IsBalanced :
    (req : NetworkRequest) (a : Option Answer) (l : Loop)
    → IsBalanced l
    → After IsBalanced (deliver req a l)
unfolding deliver emit
deliver-IsBalanced req none l v = tt
deliver-IsBalanced req (some a) l v =
    After-if IsBalanced req.sync (running (emit (replied req.ch a) l)) (consume req.arc a l)
      (record { exact = v.exact; distinct = v.distinct }) (consume-IsBalanced req.arc a l v)

pub find-handle :
    (h : ℤ) (rs : List NetworkRequest) (r : NetworkRequest)
    → find_request h rs ≡ some r
    → h ≡ r.handle
unfolding find_request
find-handle h [] r e = ground arith
find-handle h (x ∷ rs) r e = elim (Bool-cases (eqb_ℤ x.handle h)) [
  | inl hit ↦
      let same : x ≡ r = ground arith in sym (eqb_ℤ→eq x.handle h hit) ∙ ap (λ z. z.handle) same
  | inr miss ↦ find-handle h rs r (ground arith)
]

pub complete-IsBalanced :
    (h : ℤ) (s : Source) (o : Option NetworkRequest) (l : Loop)
    → find_request h l.requests ≡ o
    → IsBalanced l
    → After IsBalanced (complete h s o l)
unfolding complete
complete-IsBalanced h s none l e v = v
complete-IsBalanced h s (some req) l e v =
    let key : h ≡ req.handle = find-handle h l.requests req e in
    deliver-IsBalanced req (decode_answer h req.query s) _
      (rw key (without-IsBalanced req l v (ap (λ k. find_request k l.requests) (sym key) ∙ e)))

pub dispatch-IsBalanced :
    (o : Outcome Source ℤ) (l : Loop) → IsBalanced l → After IsBalanced (dispatch o l)
unfolding dispatch
dispatch-IsBalanced (ok h s) l v =
    After-if IsBalanced (eqb_ℤ h ping_handle) (running (record l { ping_outstanding = false }))
      (complete h s (find_request h l.requests) l)
      (record { exact = v.exact; distinct = v.distinct })
      (complete-IsBalanced h s (find_request h l.requests) l refl v)
dispatch-IsBalanced (err _ _) l v = v
dispatch-IsBalanced panic l v = tt

-- A consumer is called, or the process crashes; the requests stay.
pub consume-continue :
    (c : Option ℕ) (a : Answer) (l : Loop) (k : Loop → Next)
    → ((m : Loop) → m.requests ≡ l.requests → IsBalanced m → After IsBalanced (k m))
    → IsBalanced l
    → After IsBalanced (continue (consume c a l) k)
unfolding consume continue emit
consume-continue none a l k h v = tt
consume-continue (some c) a l k h v = h _ refl (record { exact = v.exact; distinct = v.distinct })

pub expire-IsBalanced :
    (now : ℤ) (reqs : List NetworkRequest) (l : Loop)
    → Distinct reqs
    → AllHeld reqs l.requests
    → IsBalanced l
    → After IsBalanced (expire now reqs l)
unfolding expire expire_one
expire-IsBalanced now [] l d a v = v
expire-IsBalanced now (req ∷ reqs) l (fresh, d) (held, a) v =
    elim (Bool-cases (timed_out now req)) [
      | inl late ↦
          rw (late, expire)
            (consume-continue req.arc timeout_error (without req l) (expire now reqs)
              (λ m same w.
                expire-IsBalanced now reqs m d
                  (rw same (AllHeld-delete req.handle reqs l.requests fresh a)) w)
              (without-IsBalanced req l v held))
      | inr early ↦ rw (early, expire) (expire-IsBalanced now reqs l d a v)
    ]
