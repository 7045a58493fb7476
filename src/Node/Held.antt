-- ===== src/Node/Held.antt =====
-- What a run of `loop` (voltdbclient/node_conn.go) keeps of the requests that it holds, and of what
-- it has sent.
use voltdb_client_go.Common.{
  ℕ, ◌≡◌, refl, sym, subst, arith, Bool, true, false, if◌then◌else◌, ℤ, Option, none, some, List,
  [], ◌∷◌, Bool-cases, inl, inr, All, Outcome, ok, err, panic, eqb_ℤ,
}
use voltdb_client_go.Wire.Source.{Source, buffer}
use voltdb_client_go.Wire.Decoder
use voltdb_client_go.Invocation.{ProcedureInvocation, get_len}
use voltdb_client_go.Node.State.{
  Answer, Effect, replied, NetworkRequest, Loop, Next, running, stopped, crashed, continue, emit,
  initial, find_request, delete_request, put_request, replied, ping_handle,
}
use voltdb_client_go.Node.Setup.{
  check_drain, check_pressure, check_ping, ping_due, send_ping, write_to, setup, serialize,
}
use voltdb_client_go.Node.Handlers.{
  accept, request_of, handle_procedure_invocation, consume, deliver, complete, dispatch,
  handle_response, expire_one, expire, timed_out, decode_answer, timeout_error,
}
use voltdb_client_go.Node.Step.{Event, Round, handle_event, iterate, run}
use voltdb_client_go.Node.Balance.{After, After-if}

check_pressure_keeps :
    (l : Loop)
    → ((check_pressure l).requests ≡ l.requests) × ((check_pressure l).effects ≡ l.effects)
unfolding check_pressure
check_pressure_keeps l = ground arith

-- Everything but an answer on the channel of a request.
abbrev pub IsSilent : Effect → Type 0
IsSilent (replied o a) = ⊥
IsSilent _ = Unit {0}

-- `P` is to hold of the requests and `Q` of the effects.
module _ (P : NetworkRequest → Type 0) (Q : Effect → Type 0) where
  pub record Keeps (l : Loop) : Type 0 where
    pub held : All P l.requests
    pub sent : All Q l.effects

  -- The request that an event brings.
  abbrev pub Brings : ℤ → Event → Type 0
  Brings now (Event.invoke_nc pi) =
      (pi' : ProcedureInvocation) (len : ℤ) → get_len pi ≡ ok len pi' → P (request_of pi' len now)
  Brings now (Event.invoke pi) =
      (pi' : ProcedureInvocation) (len : ℤ) → get_len pi ≡ ok len pi' → P (request_of pi' len now)
  Brings now _ = Unit {0}

  held-delete : (h : ℤ) (rs : List NetworkRequest) → All P rs → All P (delete_request h rs)
  unfolding delete_request
  held-delete h [] a = tt
  held-delete h (r ∷ rs) (s, a) = elim (Bool-cases (eqb_ℤ r.handle h)) [
    | inl hit ↦ rw hit (held-delete h rs a)
    | inr miss ↦ rw miss (s, held-delete h rs a)
  ]

  held-find :
      (h : ℤ) (rs : List NetworkRequest) (r : NetworkRequest)
      → All P rs
      → find_request h rs ≡ some r
      → P r
  unfolding find_request
  held-find h [] r a e = absurd (ground arith)
  held-find h (x ∷ rs) r (s, a) e = elim (Bool-cases (eqb_ℤ x.handle h)) [
    | inl hit ↦ (let same : x ≡ r = ground arith in subst P same s)
    | inr miss ↦ held-find h rs r a (ground arith)
  ]

  module _ (silent : (x : Effect) → IsSilent x → Q x)
      (told : (r : NetworkRequest) (h : ℤ) (s : Source) (a : Answer)
        → P r
        → decode_answer h r.query s ≡ some a
        → Q (replied r.ch a)) where
    Keeps-if : (b : Bool) (l m : Loop) → Keeps l → Keeps m → Keeps (if b then l else m)
    Keeps-if true l m v w = v
    Keeps-if false l m v w = w

    check_drain-Keeps : (n m : ℕ) (l : Loop) → Keeps l → Keeps (check_drain n m l)
    unfolding check_drain emit
    check_drain-Keeps n m l v =
        Keeps-if _ _ l (record { held = v.held; sent = (silent _ tt, v.sent) }) v

    check_pressure-Keeps : (l : Loop) → Keeps l → Keeps (check_pressure l)
    check_pressure-Keeps l v =
        let (requests, effects) = check_pressure_keeps l in
        record {
          held = subst (All P) (sym requests) v.held;
          sent = subst (All Q) (sym effects) v.sent;
        }

    write_to-Keeps : (b : Option (List ℕ)) (l : Loop) → Keeps l → After Keeps (write_to b l)
    unfolding write_to emit
    write_to-Keeps none l v = tt
    write_to-Keeps (some b) l v = record { held = v.held; sent = (silent _ tt, v.sent) }

    setup-Keeps : (now : ℤ) (n m : ℕ) (l : Loop) → Keeps l → After Keeps (setup now n m l)
    unfolding setup check_ping send_ping
    setup-Keeps now n m l v =
        let top : Loop = check_pressure (check_drain n m l) in
        let w : Keeps top = check_pressure-Keeps (check_drain n m l) (check_drain-Keeps n m l v) in
        let pinged : Loop = record top { ping_outstanding = true; ping_sent_time = now } in
        After-if Keeps (ping_due now top) (send_ping pinged) (running top)
          (write_to-Keeps _ pinged (record { held = w.held; sent = w.sent })) w

    accept-Keeps :
        (now : ℤ) (o : Outcome ProcedureInvocation ℤ) (l : Loop)
        → ((pi : ProcedureInvocation) (len : ℤ) → o ≡ ok len pi → P (request_of pi len now))
        → Keeps l
        → After Keeps (accept now o l)
    unfolding accept put_request
    accept-Keeps now (ok len pi) l h v =
        let req : NetworkRequest = request_of pi len now in
        write_to-Keeps (serialize pi) _ (record {
          held = (h pi len refl, held-delete req.handle l.requests v.held);
          sent = v.sent;
        })
    accept-Keeps now (err _ _) l h v = tt
    accept-Keeps now panic l h v = tt

    consume-Keeps : (c : Option ℕ) (a : Answer) (l : Loop) → Keeps l → After Keeps (consume c a l)
    unfolding consume emit
    consume-Keeps none a l v = tt
    consume-Keeps (some c) a l v = record { held = v.held; sent = (silent _ tt, v.sent) }

    deliver-Keeps :
        (req : NetworkRequest) (a : Option Answer) (l : Loop)
        → ((b : Answer) → a ≡ some b → Q (replied req.ch b))
        → Keeps l
        → After Keeps (deliver req a l)
    unfolding deliver emit
    deliver-Keeps req none l f v = tt
    deliver-Keeps req (some a) l f v =
        After-if Keeps req.sync (running (emit (replied req.ch a) l)) (consume req.arc a l)
          (record { held = v.held; sent = (f a refl, v.sent) }) (consume-Keeps req.arc a l v)

    complete-Keeps :
        (h : ℤ) (s : Source) (o : Option NetworkRequest) (l : Loop)
        → ((r : NetworkRequest) → o ≡ some r → P r)
        → Keeps l
        → After Keeps (complete h s o l)
    unfolding complete
    complete-Keeps h s none l f v = v
    complete-Keeps h s (some req) l f v =
        deliver-Keeps req (decode_answer h req.query s) _ (λ b e. told req h s b (f req refl) e)
          (record { held = held-delete h l.requests v.held; sent = v.sent })

    dispatch-Keeps : (o : Outcome Source ℤ) (l : Loop) → Keeps l → After Keeps (dispatch o l)
    unfolding dispatch
    dispatch-Keeps (ok h s) l v =
        After-if Keeps (eqb_ℤ h ping_handle) (running (record l { ping_outstanding = false }))
          (complete h s (find_request h l.requests) l) (record { held = v.held; sent = v.sent })
          (complete-Keeps h s (find_request h l.requests) l (λ r. held-find h l.requests r v.held)
            v)
    dispatch-Keeps (err _ _) l v = v
    dispatch-Keeps panic l v = tt

    continue-Keeps :
        (n : Next) (k : Loop → Next)
        → After Keeps n
        → ((l : Loop) → Keeps l → After Keeps (k l))
        → After Keeps (continue n k)
    unfolding continue
    continue-Keeps (running l) k v h = h l v
    continue-Keeps (stopped l) k v h = v
    continue-Keeps crashed k v h = tt

    expire-Keeps :
        (now : ℤ) (reqs : List NetworkRequest) (l : Loop)
        → Keeps l
        → After Keeps (expire now reqs l)
    unfolding expire expire_one
    expire-Keeps now [] l v = v
    expire-Keeps now (req ∷ reqs) l v = elim (Bool-cases (timed_out now req)) [
      | inl late ↦
          rw (late, expire)
            (continue-Keeps (expire_one req l) (expire now reqs)
              (consume-Keeps req.arc timeout_error _
                (record { held = held-delete req.handle l.requests v.held; sent = v.sent }))
              (expire-Keeps now reqs))
      | inr early ↦ rw (early, expire) (expire-Keeps now reqs l v)
    ]

    handle_event-Keeps :
        (now : ℤ) (x : Event) (l : Loop)
        → Brings now x
        → Keeps l
        → After Keeps (handle_event now x l)
    unfolding handle_event handle_procedure_invocation handle_response emit
    handle_event-Keeps now (Event.close c) l h v = record {
      held = v.held;
      sent = (silent _ tt, v.sent);
    }
    handle_event-Keeps now (Event.invoke_nc pi) l h v =
        After-if Keeps l.nc_pi_open (handle_procedure_invocation now pi l) (running l)
          (accept-Keeps now (get_len pi) l h v) v
    handle_event-Keeps now (Event.invoke pi) l h v = accept-Keeps now (get_len pi) l h v
    handle_event-Keeps now (Event.respond m) l h v = dispatch-Keeps (Decoder.int64 (buffer m)) l v
    handle_event-Keeps now (Event.ask_pressure c) l h v = record {
      held = v.held;
      sent = (silent _ tt, v.sent);
    }
    handle_event-Keeps now (Event.drain c) l h v = record { held = v.held; sent = v.sent }
    handle_event-Keeps now Event.tick l h v = expire-Keeps now l.requests l v

    run-from :
        (rs : List Round) (l : Loop)
        → All (λ r. Brings r.now r.event) rs
        → Keeps l
        → After Keeps (run rs l)
    unfolding run iterate
    run-from [] l h v = v
    run-from (r ∷ rs) l (h, hs) v =
        continue-Keeps (iterate r l) (run rs)
          (continue-Keeps (setup r.now r.nc_len r.pi_len l) (handle_event r.now r.event)
            (setup-Keeps r.now r.nc_len r.pi_len l v) (λ m. handle_event-Keeps r.now r.event m h))
          (λ m. run-from rs m hs)

    -- What the invocations bring, the loop has.
    pub run-Keeps :
        (now : ℤ) (rs : List Round)
        → All (λ r. Brings r.now r.event) rs
        → After Keeps (run rs (initial now))
    unfolding initial
    run-Keeps now rs h = run-from rs (initial now) h (record { held = tt; sent = tt })
