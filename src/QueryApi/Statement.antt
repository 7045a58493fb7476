-- ===== src/QueryApi/Statement.antt =====
-- Prepared statements (voltdbclient/statement.go), which the procedure @AdHoc runs with the text of
-- the statement as its first parameter.
use voltdb_client_go.Common.{ℕ, suc, ◌==◌, if◌then◌else◌, ℤ, List, [], ◌∷◌}
use voltdb_client_go.Wire.Value.{Scalar, Value}
use voltdb_client_go.QueryApi.{
  Conn, exec_timeout, query_timeout, exec_async_timeout, query_async_timeout, default_query_timeout,
}

pub record VoltStatement : Type 0 where
  pub query : List ℕ
  pub num_input : ℕ

-- The question marks of a text.
unfoldable pub placeholders : List ℕ → ℕ
placeholders [] = 0
placeholders (b ∷ bs) = let n = placeholders bs in if b == b'?' then suc n else n

unfoldable pub new_volt_statement : List ℕ → VoltStatement
unfolding placeholders
new_volt_statement query = record { query = query; num_input = placeholders query }

-- "@AdHoc"
abbrev pub ad_hoc : List ℕ
ad_hoc = b'@' ∷ b'A' ∷ b'd' ∷ b'H' ∷ b'o' ∷ b'c' ∷ []

unfoldable pub with_query : VoltStatement → List Value → List Value
with_query vs args = Value.scalar (Scalar.string vs.query) ∷ args

unfoldable pub statement_exec_timeout : VoltStatement → List Value → ℤ → Conn → ℕ × Conn
unfolding with_query
statement_exec_timeout vs args timeout = exec_timeout ad_hoc (with_query vs args) timeout

unfoldable pub statement_query_timeout : VoltStatement → List Value → ℤ → Conn → ℕ × Conn
unfolding with_query
statement_query_timeout vs args timeout = query_timeout ad_hoc (with_query vs args) timeout

unfoldable pub statement_exec : VoltStatement → List Value → Conn → ℕ × Conn
unfolding statement_exec_timeout
statement_exec vs args = statement_exec_timeout vs args default_query_timeout

unfoldable pub statement_query : VoltStatement → List Value → Conn → ℕ × Conn
unfolding statement_query_timeout
statement_query vs args = statement_query_timeout vs args default_query_timeout

unfoldable pub statement_exec_async_timeout : VoltStatement → ℕ → List Value → ℤ → Conn → Conn
unfolding with_query
statement_exec_async_timeout vs consumer args timeout =
    exec_async_timeout consumer ad_hoc (with_query vs args) timeout

unfoldable pub statement_query_async_timeout : VoltStatement → ℕ → List Value → ℤ → Conn → Conn
unfolding with_query
statement_query_async_timeout vs consumer args timeout =
    query_async_timeout consumer ad_hoc (with_query vs args) timeout

unfoldable pub statement_exec_async : VoltStatement → ℕ → List Value → Conn → Conn
unfolding statement_exec_async_timeout
statement_exec_async vs consumer args =
    statement_exec_async_timeout vs consumer args default_query_timeout

unfoldable pub statement_query_async : VoltStatement → ℕ → List Value → Conn → Conn
unfolding statement_query_async_timeout
statement_query_async vs consumer args =
    statement_query_async_timeout vs consumer args default_query_timeout
