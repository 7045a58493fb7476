-- ===== src/QueryApi/Tests.antt =====
-- The theorems about calls at concrete programs (voltdbclient/query_api.go).
use voltdb_client_go.Common.{ℕ, refl, false, pos, negsuc, some, none, List, [], ◌∷◌, All}
use voltdb_client_go.Invocation.{
  ProcedureInvocation, new_sync_procedure_invocation, new_async_procedure_invocation,
}
use voltdb_client_go.Node.State.{initial}
use voltdb_client_go.Node.Step.{Event, Round, run}
use voltdb_client_go.Node.Balance.{After}
use voltdb_client_go.QueryApi.{
  Conn, start, start_async, get_next_handle, send, query_timeout, exec_async_timeout,
}
use voltdb_client_go.QueryApi.Answers.{Call, called, called_all, Settles, run-Settles}

abbrev opened : Conn
opened = record { handle = pos 0; s_handle = negsuc 0; channels = 0; in_pi_ch = [] }

abbrev vote : List ℕ
vote = b'V' ∷ b'o' ∷ b't' ∷ b'e' ∷ []

abbrev earlier : List Call
earlier = Call.query vote [] (pos 9) ∷ []

abbrev later : List Call
later = Call.exec_async 4 vote [] (pos 9) ∷ Call.query vote [] (pos 9) ∷ []

-- The call in the middle.
abbrev voting : ProcedureInvocation
voting = record {
  handle = pos 2;
  is_query = false;
  query = vote;
  params = [];
  response_ch = some 1;
  timeout = pos 9;
  arc = none;
  async = false;
  slen = negsuc 0;
}

abbrev rounds : List Round
rounds =
    record { now = pos 5; nc_len = 0; pi_len = 0; event = Event.invoke voting }
    ∷ record {
      now = pos 6;
      nc_len = 0;
      pi_len = 0;
      event =
          Event.respond (0 ∷ 0 ∷ 0 ∷ 0 ∷ 0 ∷ 0 ∷ 0 ∷ 2 ∷ 0 ∷ 1 ∷ 0 ∷ 0 ∷ 0 ∷ 0 ∷ 3 ∷ 0 ∷ 0 ∷ []);
    }
    ∷ []

run-Settles_example : After (λ l. All (Settles 1 false) l.effects) (run rounds (initial (pos 0)))
unfolding called_all called start start_async get_next_handle send query_timeout exec_async_timeout
    new_sync_procedure_invocation new_async_procedure_invocation
run-Settles_example =
    run-Settles false earlier later vote [] (pos 9) opened (pos 0) rounds refl ((2, refl), (tt, tt))
