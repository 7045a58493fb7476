-- ===== src/Node/Replies.antt =====
-- What `loop` (voltdbclient/node_conn.go) sends on the response channel of a call: rows or an error
-- for a query, a result or an error for any other.
use voltdb_client_go.Common.{
  ℕ, ◌≡◌, sym, ◌∙◌, subst, arith, Bool, true, false, ℤ, Option, none, some, List, [], ◌∷◌,
  Bool-cases, inl, inr, All, ok,
}
use voltdb_client_go.Wire.Source.{Source}
use voltdb_client_go.Invocation.{ProcedureInvocation, get_len}
use voltdb_client_go.Response.{
  VoltResponseInfo, good, bad, crash, decode_response, decode_rows, decode_result,
}
use voltdb_client_go.Node.State.{
  Answer, error, rows, result, Effect, wrote, consumed, drained, pressure, closed, NetworkRequest,
  Loop, initial, replied, new_sync_request, new_async_request,
}
use voltdb_client_go.Node.Handlers.{request_of, tables_answer, decode_answer}
use voltdb_client_go.Node.Step.{Event, Round, run}
use voltdb_client_go.Node.Balance.{After}
use voltdb_client_go.Node.Held.{Keeps, Brings, IsSilent, run-Keeps}

-- The answers that a query is to have, and any other call.
abbrev pub Suits : Bool → Answer → Type 0
Suits q (error e) = Unit {0}
Suits true (rows vr) = Unit {0}
Suits true (result vr) = ⊥
Suits false (rows vr) = ⊥
Suits false (result vr) = Unit {0}

abbrev SuitsAny : Bool → Option Answer → Type 0
SuitsAny q none = Unit {0}
SuitsAny q (some a) = Suits q a

rows-Suits : (rsp : VoltResponseInfo) (s : Source) → SuitsAny true (tables_answer true rsp s)
unfolding tables_answer
rows-Suits rsp s =
    elim (decode_rows rsp s)
      as (λ r.
        SuitsAny true
          (elim r [ good vr _ ↦ some (rows vr) | bad e _ ↦ some (error e) | crash ↦ none ])) [
            | good vr t ↦ tt
            | bad e t ↦ tt
            | crash ↦ tt
          ]

result-Suits : (rsp : VoltResponseInfo) (s : Source) → SuitsAny false (tables_answer false rsp s)
unfolding tables_answer
result-Suits rsp s =
    elim (decode_result rsp s)
      as (λ r.
        SuitsAny false
          (elim r [ good vr _ ↦ some (result vr) | bad e _ ↦ some (error e) | crash ↦ none ])) [
            | good vr t ↦ tt
            | bad e t ↦ tt
            | crash ↦ tt
          ]

tables-Suits : (q : Bool) (rsp : VoltResponseInfo) (s : Source) → SuitsAny q (tables_answer q rsp s)
tables-Suits true = rows-Suits
tables-Suits false = result-Suits

decode_answer-Suits : (h : ℤ) (q : Bool) (s : Source) → SuitsAny q (decode_answer h q s)
unfolding decode_answer
decode_answer-Suits h q s =
    elim (decode_response h s)
      as (λ r. SuitsAny q (elim r [
        | good rsp s' ↦ tables_answer q rsp s'
        | bad e _ ↦ some (error e)
        | crash ↦ none
      ])) [ good rsp t ↦ tables-Suits q rsp t | bad e t ↦ tt | crash ↦ tt ]

get_len-call :
    (pi pi' : ProcedureInvocation) (len : ℤ)
    → get_len pi ≡ ok len pi'
    → (pi'.is_query ≡ pi.is_query) × (pi'.response_ch ≡ pi.response_ch)
unfolding get_len
get_len-call pi pi' len e = ground arith

-- The calls that wait on the channel `ch` are queries or not, as `q` says, and so is every answer.
module _ (ch : ℕ) (q : Bool) where
  abbrev Serves : NetworkRequest → Type 0
  Serves r = r.ch ≡ some ch → r.query ≡ q

  abbrev pub Sends : Effect → Type 0
  Sends (replied o a) = o ≡ some ch → Suits q a
  Sends _ = Unit {0}

  abbrev pub IsTyped : Loop → Type 0
  IsTyped = Keeps Serves Sends

  -- The invocation that an event brings.
  abbrev pub Carries : Event → Type 0
  Carries (Event.invoke_nc pi) = pi.response_ch ≡ some ch → pi.is_query ≡ q
  Carries (Event.invoke pi) = pi.response_ch ≡ some ch → pi.is_query ≡ q
  Carries _ = Unit {0}

  request_of-Serves :
      (pi : ProcedureInvocation) (len now : ℤ)
      → (pi.response_ch ≡ some ch → pi.is_query ≡ q)
      → Serves (request_of pi len now)
  unfolding request_of new_sync_request new_async_request
  request_of-Serves pi len now h = elim (Bool-cases pi.async) [ inl e ↦ rw e h | inr e ↦ rw e h ]

  request-Serves :
      (pi : ProcedureInvocation) (now : ℤ)
      → (pi.response_ch ≡ some ch → pi.is_query ≡ q)
      → (pi' : ProcedureInvocation) (len : ℤ) → get_len pi ≡ ok len pi'
      → Serves (request_of pi' len now)
  request-Serves pi now h pi' len e =
      let (mode, channel) = get_len-call pi pi' len e in
      request_of-Serves pi' len now (λ c. mode ∙ h (sym channel ∙ c))

  Carries-Brings : (now : ℤ) (x : Event) → Carries x → Brings Serves Sends now x
  Carries-Brings now (Event.close c) h = tt
  Carries-Brings now (Event.invoke_nc pi) h = request-Serves pi now h
  Carries-Brings now (Event.invoke pi) h = request-Serves pi now h
  Carries-Brings now (Event.respond m) h = tt
  Carries-Brings now (Event.ask_pressure c) h = tt
  Carries-Brings now (Event.drain c) h = tt
  Carries-Brings now Event.tick h = tt

  All-Brings :
      (rs : List Round)
      → All (λ r. Carries r.event) rs
      → All (λ r. Brings Serves Sends r.now r.event) rs
  All-Brings [] h = tt
  All-Brings (r ∷ rs) (h, hs) = (Carries-Brings r.now r.event h, All-Brings rs hs)

  silent-Sends : (x : Effect) → IsSilent x → Sends x
  silent-Sends (wrote b) h = tt
  silent-Sends (replied o a) h = absurd h
  silent-Sends (consumed c a) h = tt
  silent-Sends (drained o) h = tt
  silent-Sends (pressure c b) h = tt
  silent-Sends (closed c) h = tt

  answer-Sends :
      (r : NetworkRequest) (h : ℤ) (s : Source) (a : Answer)
      → Serves r
      → decode_answer h r.query s ≡ some a
      → Sends (replied r.ch a)
  answer-Sends r h s a serves e c =
      subst (λ b. Suits b a) (serves c)
        (subst (SuitsAny r.query) e (decode_answer-Suits h r.query s))

  -- Every invocation that waits on the channel is one of these calls, so every answer there suits.
  pub run-IsTyped :
      (now : ℤ) (rs : List Round)
      → All (λ r. Carries r.event) rs
      → After IsTyped (run rs (initial now))
  run-IsTyped now rs h = run-Keeps Serves Sends silent-Sends answer-Sends now rs (All-Brings rs h)
