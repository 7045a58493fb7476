-- ===== src/Node/Tests.antt =====
-- The theorems about a node's `loop` at concrete states (voltdbclient/node_conn.go).
use voltdb_client_go.Common.{
  ℕ, ◌≡◌, ◌⊎◌, refl, inl, inr, take, drop, arith, true, false, ℤ, pos, negsuc, some, none, List, [],
  ◌∷◌,
}
use voltdb_client_go.Wire.Value.{Scalar, Value}
use voltdb_client_go.Wire.Source.{read, conn}
use voltdb_client_go.Wire.Decoder
use voltdb_client_go.Invocation.{ProcedureInvocation}
use voltdb_client_go.Response.{decode_response, decode_result}
use voltdb_client_go.Node.State.{
  continue, NetworkRequest, Answer, result, Loop, Next, running, stopped, crashed, initial,
  find_request, pressure,
}
use voltdb_client_go.Node.Setup.{check_pressure, check_drain, check_ping, ping_due, setup}
use voltdb_client_go.Node.Handlers.{request_of, handle_response, decode_answer}
use voltdb_client_go.Node.Step.{Event, Round, handle_event, iterate, run}
use voltdb_client_go.Node.Balance.{IsBalanced, After}
use voltdb_client_go.Node.Runs.{AllFresh, run-IsBalanced}
use voltdb_client_go.Node.Routing.{response_message, answered, respond_once, tick_crashes}
use voltdb_client_go.Node.Idle.{IsIdle, told, drain-IsIdle}
use voltdb_client_go.Node.Honesty.{IsHonest, Tells, run-IsHonest}
use voltdb_client_go.Node.Listen.{
  Arrive, versioned, frame, returned, listen, listen-messages, listen-split,
}

abbrev call : ProcedureInvocation
call = record {
  handle = pos 7;
  is_query = false;
  query = b'V' ∷ b'o' ∷ b't' ∷ b'e' ∷ [];
  params = Value.scalar (Scalar.int8 (pos 4)) ∷ [];
  response_ch = some 1;
  timeout = pos 1000;
  arc = none;
  async = false;
  slen = negsuc 0;
}

abbrev waiting : NetworkRequest
waiting = record {
  handle = pos 7;
  query = false;
  ch = some 1;
  sync = true;
  arc = none;
  num_bytes = pos 21;
  timeout = pos 1000;
  submitted = pos 0;
}

abbrev holding : ℤ → Loop
holding n = record {
  requests = waiting ∷ [];
  nc_pi_open = true;
  draining = false;
  drain_resp_ch = none;
  queued_bytes = n;
  bp = false;
  ping_sent_time = pos 0;
  ping_outstanding = false;
  effects = [];
}

-- A response with status 1, application status 0, no latency and no tables.
abbrev success_body : List ℕ
success_body = 0 ∷ 1 ∷ 0 ∷ 0 ∷ 0 ∷ 0 ∷ 0 ∷ 0 ∷ 0 ∷ []

abbrev success_answer : Answer
success_answer = result (record {
  volt_response = record {
    handle = pos 7;
    status = pos 1;
    status_string = [];
    app_status = pos 0;
    app_status_string = [];
    cluster_round_trip_time = pos 0;
    num_tables = pos 0;
  };
  rows_aff = [];
  ti = pos 0;
})

tick_crashes_example : handle_event (pos 2000) Event.tick (holding (pos 21)) ≡ crashed
unfolding request_of
tick_crashes_example =
    tick_crashes (pos 2000) (pos 0) (pos 21) call [] [] (holding (pos 21)) refl refl refl

respond_once_example :
    (handle_response (response_message (pos 7) success_body) (holding (pos 21))
      ≡ running (answered (pos 7) waiting success_answer (holding (pos 21))))
    × (handle_response
          (response_message (pos 7) [])
          (answered (pos 7) waiting success_answer (holding (pos 21)))
        ≡ running (answered (pos 7) waiting success_answer (holding (pos 21))))
unfolding find_request decode_answer decode_response decode_result read Decoder.byte Decoder.int16
    Decoder.int32 Decoder.uint16 Decoder.uint32
respond_once_example =
    respond_once (pos 7) success_body [] waiting success_answer (holding (pos 21)) (omega arith)
      (λ e. ground arith) refl refl refl

abbrev first : Round
first = record { now = pos 0; nc_len = 0; pi_len = 0; event = Event.invoke call }

abbrev second : Round
second = record {
  now = pos 1;
  nc_len = 0;
  pi_len = 0;
  event = Event.respond (response_message (pos 7) success_body);
}

After-all : (P : Loop → Type 0) → ((l : Loop) → P l) → (n : Next) → After P n
After-all P h (running l) = h l
After-all P h (stopped l) = h l
After-all P h crashed = tt

rounds-AllFresh : AllFresh (first ∷ second ∷ []) (initial (pos 0))
unfolding setup check_drain check_pressure check_ping ping_due find_request initial
rounds-AllFresh = (
  refl,
  After-all (AllFresh (second ∷ []))
      (λ l. (
        After-all (λ m. Unit {0}) (λ m. tt) (setup (pos 1) 0 0 l),
        After-all (λ m. Unit {0}) (λ m. tt) (iterate second l),
      ))
      (iterate first (initial (pos 0))),
)

run-IsBalanced_example : After IsBalanced (run (first ∷ second ∷ []) (initial (pos 0)))
run-IsBalanced_example = run-IsBalanced (pos 0) (first ∷ second ∷ []) rounds-AllFresh

run-IsHonest_example :
    After IsHonest (run (first ∷ second ∷ []) (initial (pos 0)))
    × Tells 4 (
        continue
          (run (first ∷ second ∷ []) (initial (pos 0)))
          (iterate (record { now = pos 9; nc_len = 1; pi_len = 0; event = Event.ask_pressure 4 })))
run-IsHonest_example = run-IsHonest (pos 0) (pos 9) (first ∷ second ∷ []) 1 0 4

-- Two messages: the first in two segments, the second behind the end of the first.
abbrev segments : List (List ℕ)
segments = (0 ∷ 0 ∷ 0 ∷ 3 ∷ 0 ∷ []) ∷ (7 ∷ 8 ∷ 0 ∷ 0 ∷ 0 ∷ 2 ∷ []) ∷ (0 ∷ 9 ∷ []) ∷ []

segments-Arrive : Arrive (versioned (7 ∷ 8 ∷ []) ∷ versioned (9 ∷ []) ∷ []) segments
segments-Arrive = (
  0 ∷ [],
  (7 ∷ 8 ∷ 0 ∷ 0 ∷ 0 ∷ 2 ∷ []) ∷ (0 ∷ 9 ∷ []) ∷ [],
  (0 ∷ 0 ∷ 0 ∷ 2 ∷ []) ∷ (0 ∷ 9 ∷ []) ∷ [],
  refl,
  inr (7 ∷ 8 ∷ [], refl, inl (0, 0 ∷ 0 ∷ 2 ∷ [], refl, refl)),
  ([], (0 ∷ 9 ∷ []) ∷ [], [], refl, inr ([], refl, (refl, refl)), refl),
)

listen-messages_example : listen 5 (conn segments) ≡ returned ((7 ∷ 8 ∷ []) ∷ (9 ∷ []) ∷ [])
listen-messages_example =
    listen-messages ((7 ∷ 8 ∷ []) ∷ (9 ∷ []) ∷ []) segments 5 segments-Arrive
      (omega arith, (omega arith, tt)) (omega arith)

listen-split_example :
    listen 5 (conn (take 2 (frame (7 ∷ 8 ∷ [])) ∷ drop 2 (frame (7 ∷ 8 ∷ [])) ∷ segments))
    ≡ returned []
listen-split_example = listen-split (7 ∷ 8 ∷ []) segments 4 (omega arith)

-- Asked for its pressure, and then to drain.
abbrev asked_and_drained : List Round
asked_and_drained =
    record { now = pos 0; nc_len = 0; pi_len = 0; event = Event.ask_pressure 4 }
    ∷ record { now = pos 1; nc_len = 0; pi_len = 1; event = Event.drain 5 }
    ∷ []

abbrev drained_loop : Loop
drained_loop = record {
  requests = [];
  nc_pi_open = true;
  draining = true;
  drain_resp_ch = some 5;
  queued_bytes = pos 0;
  bp = false;
  ping_sent_time = pos 0;
  ping_outstanding = false;
  effects = pressure 4 false ∷ [];
}

asked_and_drained-run : run asked_and_drained (initial (pos 0)) ≡ running drained_loop
unfolding run iterate setup check_drain check_pressure check_ping ping_due handle_event initial
asked_and_drained-run = refl

asked_and_drained-AllFresh : AllFresh asked_and_drained (initial (pos 0))
unfolding run iterate setup check_drain check_pressure check_ping ping_due handle_event initial
asked_and_drained-AllFresh = (tt, (tt, tt))

-- One invocation waits in the channel that all nodes read from.
drain-IsIdle_example :
    (IsIdle 0 1 drained_loop × (check_drain 0 1 drained_loop ≡ told drained_loop))
    ⊎ ((¬ IsIdle 0 1 drained_loop) × (check_drain 0 1 drained_loop ≡ drained_loop))
drain-IsIdle_example =
    drain-IsIdle (pos 0) asked_and_drained 0 1 drained_loop asked_and_drained-AllFresh
      (tt, (tt, tt)) asked_and_drained-run refl
