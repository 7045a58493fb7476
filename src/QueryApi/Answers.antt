-- ===== src/QueryApi/Answers.antt =====
-- What a synchronous call (voltdbclient/query_api.go) receives on its channel from the nodes
-- (voltdbclient/node_conn.go) makes it return or fail, never panic.
use voltdb_client_go.Common.{
  ℕ, zero, suc, ◌<◌, ◌≡◌, ◌≢◌, refl, sym, subst, arith, Bool, true, false, ℤ, some, List, [], ◌∷◌,
  All, get_elem?,
}
use voltdb_client_go.Wire.Value.{Value}
use voltdb_client_go.Invocation.{
  ProcedureInvocation, new_sync_procedure_invocation, new_async_procedure_invocation,
}
use voltdb_client_go.Node.State.{
  Answer, error, rows, result, Effect, wrote, replied, consumed, drained, pressure, closed, Next,
  running, stopped, crashed, initial,
}
use voltdb_client_go.Node.Step.{Event, Round, run}
use voltdb_client_go.Node.Balance.{After}
use voltdb_client_go.Node.Replies.{Suits, Sends, Carries, IsTyped, run-IsTyped}
use voltdb_client_go.QueryApi.{
  Conn, start, start_async, get_next_handle, send, exec_timeout, query_timeout, exec_async_timeout,
  query_async_timeout, response, panicked, exec_ending, query_ending,
}

-- The calls of a program, with the number of a consumer for an asynchronous one.
pub data Call : Type 0 where
  exec query : List ℕ → List Value → ℤ → Call
  exec_async query_async : ℕ → List ℕ → List Value → ℤ → Call

-- What a call leaves behind before it waits.
unfoldable pub called : Call → Conn → Conn
unfolding exec_timeout query_timeout exec_async_timeout query_async_timeout
called (Call.exec text args timeout) c = (exec_timeout text args timeout c).1
called (Call.query text args timeout) c = (query_timeout text args timeout c).1
called (Call.exec_async consumer text args timeout) c =
    exec_async_timeout consumer text args timeout c
called (Call.query_async consumer text args timeout) c =
    query_async_timeout consumer text args timeout c

unfoldable pub called_all : List Call → Conn → Conn
unfolding called
called_all [] c = c
called_all (x ∷ xs) c = called_all xs (called x c)

-- The channels of what has been sent have been made.
Known : ℕ → ProcedureInvocation → Type 0
Known n pi = (ch : ℕ) → pi.response_ch ≡ some ch → ch < n

Waits : ℕ → Bool → ProcedureInvocation → Type 0
Waits ch q pi = pi.response_ch ≡ some ch → pi.is_query ≡ q

IsFresh : Conn → Type 0
unfolding Known
IsFresh c = All (Known c.channels) c.in_pi_ch

Known-suc : (n : ℕ) (pis : List ProcedureInvocation) → All (Known n) pis → All (Known (suc n)) pis
unfolding Known
Known-suc n [] h = tt
Known-suc n (pi ∷ pis) (k, h) = ((λ ch e. omega (arith, k ch e)), Known-suc n pis h)

some_same : (n m : ℕ) → some n ≡ some m → n ≡ m
some_same n m e = cc

start-IsFresh :
    (q : Bool) (text : List ℕ) (args : List Value) (timeout : ℤ) (c : Conn)
    → IsFresh c
    → IsFresh (start q text args timeout c).1
unfolding start IsFresh Known get_next_handle send new_sync_procedure_invocation
start-IsFresh q text args timeout c h =
    ((λ ch e. omega (arith, some_same c.channels ch e)), Known-suc c.channels c.in_pi_ch h)

start_async-IsFresh :
    (q : Bool) (consumer : ℕ) (text : List ℕ) (args : List Value) (timeout : ℤ) (c : Conn)
    → IsFresh c
    → IsFresh (start_async q consumer text args timeout c)
unfolding start_async IsFresh Known get_next_handle send new_async_procedure_invocation
start_async-IsFresh q consumer text args timeout c h = ((λ ch e. absurd (ground arith)), h)

called-IsFresh : (x : Call) (c : Conn) → IsFresh c → IsFresh (called x c)
unfolding called exec_timeout query_timeout exec_async_timeout query_async_timeout
called-IsFresh (Call.exec text args timeout) c h = start-IsFresh false text args timeout c h
called-IsFresh (Call.query text args timeout) c h = start-IsFresh true text args timeout c h
called-IsFresh (Call.exec_async k text args timeout) c h =
    start_async-IsFresh false k text args timeout c h
called-IsFresh (Call.query_async k text args timeout) c h =
    start_async-IsFresh true k text args timeout c h

called_all-IsFresh : (xs : List Call) (c : Conn) → IsFresh c → IsFresh (called_all xs c)
unfolding called_all
called_all-IsFresh [] c h = h
called_all-IsFresh (x ∷ xs) c h = called_all-IsFresh xs (called x c) (called-IsFresh x c h)

-- A channel that has been made, on which calls of one kind wait.
record IsOwn (ch : ℕ) (q : Bool) (c : Conn) : Type 0 where
  made : ch < c.channels
  waits : All (Waits ch q) c.in_pi_ch

Known-Waits :
    (n : ℕ) (q : Bool) (pis : List ProcedureInvocation) → All (Known n) pis → All (Waits n q) pis
unfolding Known Waits
Known-Waits n q [] h = tt
Known-Waits n q (pi ∷ pis) (k, h) = ((λ e. absurd (omega (arith, k n e))), Known-Waits n q pis h)

start-IsOwn :
    (q : Bool) (text : List ℕ) (args : List Value) (timeout : ℤ) (c : Conn)
    → IsFresh c
    → IsOwn (start q text args timeout c).0 q (start q text args timeout c).1
unfolding start IsFresh Waits get_next_handle send new_sync_procedure_invocation
start-IsOwn q text args timeout c h = record {
  made = omega arith;
  waits = ((λ e. refl), Known-Waits c.channels q c.in_pi_ch h);
}

later-IsOwn :
    (ch : ℕ) (q b : Bool) (text : List ℕ) (args : List Value) (timeout : ℤ) (c : Conn)
    → IsOwn ch q c
    → IsOwn ch q (start b text args timeout c).1
unfolding start Waits get_next_handle send new_sync_procedure_invocation
later-IsOwn ch q b text args timeout c h = record {
  made = omega (arith, h.made);
  waits = ((λ e. absurd (omega (arith, h.made, some_same c.channels ch e))), h.waits);
}

async-IsOwn :
    (ch : ℕ) (q b : Bool) (k : ℕ) (text : List ℕ) (args : List Value) (timeout : ℤ) (c : Conn)
    → IsOwn ch q c
    → IsOwn ch q (start_async b k text args timeout c)
unfolding start_async Waits get_next_handle send new_async_procedure_invocation
async-IsOwn ch q b k text args timeout c h = record {
  made = h.made;
  waits = ((λ e. absurd (ground arith)), h.waits);
}

called-IsOwn : (ch : ℕ) (q : Bool) (x : Call) (c : Conn) → IsOwn ch q c → IsOwn ch q (called x c)
unfolding called exec_timeout query_timeout exec_async_timeout query_async_timeout
called-IsOwn ch q (Call.exec text args timeout) c h = later-IsOwn ch q false text args timeout c h
called-IsOwn ch q (Call.query text args timeout) c h = later-IsOwn ch q true text args timeout c h
called-IsOwn ch q (Call.exec_async k text args timeout) c h =
    async-IsOwn ch q false k text args timeout c h
called-IsOwn ch q (Call.query_async k text args timeout) c h =
    async-IsOwn ch q true k text args timeout c h

called_all-IsOwn :
    (ch : ℕ) (q : Bool) (xs : List Call) (c : Conn) → IsOwn ch q c → IsOwn ch q (called_all xs c)
unfolding called_all
called_all-IsOwn ch q [] c h = h
called_all-IsOwn ch q (x ∷ xs) c h = called_all-IsOwn ch q xs (called x c) (called-IsOwn ch q x c h)

abbrev Among : List ProcedureInvocation → ProcedureInvocation → Type 0
Among pis pi = (i : ℕ) × (get_elem? pis i ≡ some pi)

-- The loop gets no invocation but those that the connection has sent.
abbrev pub Brings : List ProcedureInvocation → Event → Type 0
Brings pis (Event.invoke_nc pi) = Among pis pi
Brings pis (Event.invoke pi) = Among pis pi
Brings pis _ = Unit {0}

Waits-Among :
    (ch : ℕ) (q : Bool) (pis : List ProcedureInvocation) (pi : ProcedureInvocation) (i : ℕ)
    → All (Waits ch q) pis
    → get_elem? pis i ≡ some pi
    → Waits ch q pi
Waits-Among ch q [] pi i h e = absurd (ground arith)
Waits-Among ch q (x ∷ xs) pi zero (w, h) e = let same : x ≡ pi = cc in subst (Waits ch q) same w
Waits-Among ch q (x ∷ xs) pi (suc i) (w, h) e = Waits-Among ch q xs pi i h e

Carries-Brings :
    (ch : ℕ) (q : Bool) (pis : List ProcedureInvocation) (x : Event)
    → All (Waits ch q) pis
    → Brings pis x
    → Carries ch q x
unfolding Waits
Carries-Brings ch q pis (Event.close c) h b = tt
Carries-Brings ch q pis (Event.invoke_nc pi) h (i, e) = Waits-Among ch q pis pi i h e
Carries-Brings ch q pis (Event.invoke pi) h (i, e) = Waits-Among ch q pis pi i h e
Carries-Brings ch q pis (Event.respond m) h b = tt
Carries-Brings ch q pis (Event.ask_pressure c) h b = tt
Carries-Brings ch q pis (Event.drain c) h b = tt
Carries-Brings ch q pis Event.tick h b = tt

All-Carries :
    (ch : ℕ) (q : Bool) (pis : List ProcedureInvocation) (rs : List Round)
    → All (Waits ch q) pis
    → All (λ r. Brings pis r.event) rs
    → All (λ r. Carries ch q r.event) rs
All-Carries ch q pis [] h b = tt
All-Carries ch q pis (r ∷ rs) h (b, bs) =
    (Carries-Brings ch q pis r.event h b, All-Carries ch q pis rs h bs)

-- The call that waits for the answer does not panic on it.
abbrev pub IsTaken : Bool → Answer → Type 0
IsTaken true a = query_ending (response a) ≢ panicked
IsTaken false a = exec_ending (response a) ≢ panicked

abbrev pub Settles : ℕ → Bool → Effect → Type 0
Settles ch q (replied o a) = o ≡ some ch → IsTaken q a
Settles ch q _ = Unit {0}

Suits-IsTaken : (q : Bool) (a : Answer) → Suits q a → IsTaken q a
unfolding query_ending exec_ending
Suits-IsTaken true (error e) h = λ x. cc
Suits-IsTaken true (rows r) h = λ x. cc
Suits-IsTaken true (result r) h = absurd h
Suits-IsTaken false (error e) h = λ x. cc
Suits-IsTaken false (rows r) h = absurd h
Suits-IsTaken false (result r) h = λ x. cc

Settles-Sends : (ch : ℕ) (q : Bool) (xs : List Effect) → All (Sends ch q) xs → All (Settles ch q) xs
Settles-Sends ch q [] h = tt
Settles-Sends ch q (replied o a ∷ xs) (h, hs) =
    ((λ same. Suits-IsTaken q a (h same)), Settles-Sends ch q xs hs)
Settles-Sends ch q (wrote b ∷ xs) (h, hs) = (tt, Settles-Sends ch q xs hs)
Settles-Sends ch q (consumed c a ∷ xs) (h, hs) = (tt, Settles-Sends ch q xs hs)
Settles-Sends ch q (drained o ∷ xs) (h, hs) = (tt, Settles-Sends ch q xs hs)
Settles-Sends ch q (pressure c b ∷ xs) (h, hs) = (tt, Settles-Sends ch q xs hs)
Settles-Sends ch q (closed c ∷ xs) (h, hs) = (tt, Settles-Sends ch q xs hs)

Settles-After :
    (ch : ℕ) (q : Bool) (n : Next)
    → After (IsTyped ch q) n
    → After (λ l. All (Settles ch q) l.effects) n
Settles-After ch q (running l) v = Settles-Sends ch q l.effects v.sent
Settles-After ch q (stopped l) v = Settles-Sends ch q l.effects v.sent
Settles-After ch q crashed v = tt

-- A program makes calls on a connection that has sent nothing yet, among them one that waits for an
-- answer, and a node's loop gets its invocations from what the connection has sent, in any order and
-- number. Whatever else comes to the loop, each answer that it sends on the channel of that call is
-- one on which the call does not panic: a query is given rows or an error, an exec a result or an
-- error.
pub run-Settles :
    (q : Bool) (before later : List Call) (text : List ℕ) (args : List Value) (timeout : ℤ)
    (c : Conn) (now : ℤ) (rs : List Round)
    → c.in_pi_ch ≡ []
    → All
        (λ r.
          Brings
            (called_all later (start q text args timeout (called_all before c)).1).in_pi_ch
            r.event)
        rs
    → After
        (λ l. All (Settles (start q text args timeout (called_all before c)).0 q) l.effects)
        (run rs (initial now))
unfolding IsFresh
run-Settles q before later text args timeout c now rs empty brings =
    let c' : Conn = called_all before c in
    let s : ℕ × Conn = start q text args timeout c' in
    let first : IsFresh c = subst (All (Known c.channels)) (sym empty) tt in
    let own : IsOwn s.0 q (called_all later s.1) =
      called_all-IsOwn s.0 q later s.1
        (start-IsOwn q text args timeout c' (called_all-IsFresh before c first)) in
    Settles-After s.0 q (run rs (initial now)) (
      run-IsTyped s.0 q now rs
        (All-Carries s.0 q (called_all later s.1).in_pi_ch rs own.waits brings))
