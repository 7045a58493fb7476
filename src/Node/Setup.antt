-- ===== src/Node/Setup.antt =====
-- The top of an iteration of `loop`, before its select (voltdbclient/node_conn.go).
use voltdb_client_go.Common.{
  Bool, ℕ, ◌==◌, if◌then◌else◌, true, false, ◌&&◌, not, ℤ, pos, ◌-ℤ◌, eqb_ℤ, ltb_ℤ, Option, none,
  some, List, [], ◌∷◌, ok, err, panic, Outcome,
}
use voltdb_client_go.Wire.Encoder.{Encoder, new_encoder}
use voltdb_client_go.Invocation.{ProcedureInvocation, new_procedure_invocation_by_handle, encode_pi}
use voltdb_client_go.Node.State.{
  wrote, drained, Loop, Next, running, crashed, emit, max_queued_bytes, ping_handle, ping_interval,
}

-- The top of an iteration. The lengths are those of nc.ncPiCh and of piCh.
unfoldable pub check_drain : ℕ → ℕ → Loop → Loop
unfolding emit
check_drain nc_len pi_len l =
    if l.draining && eqb_ℤ l.queued_bytes (pos 0) && nc_len == 0 && pi_len == 0
    then emit (drained l.drain_resp_ch) (record l { drain_resp_ch = none; draining = false })
    else l

unfoldable pub check_pressure : Loop → Loop
check_pressure l =
    if ltb_ℤ max_queued_bytes l.queued_bytes && l.nc_pi_open
    then record l { nc_pi_open = false; bp = true }
    else if not l.nc_pi_open
    then record l { nc_pi_open = true; bp = false }
    else l

-- What EncodePI leaves in a reset encoder; its error is dropped by the callers.
unfoldable pub written_bytes : Outcome Encoder ProcedureInvocation → Option (List ℕ)
written_bytes (ok _ e) = some e.buf
written_bytes (err _ e) = some e.buf
written_bytes panic = none

unfoldable pub serialize : ProcedureInvocation → Option (List ℕ)
unfolding written_bytes new_encoder
serialize pi = written_bytes (encode_pi pi new_encoder)

unfoldable pub write_to : Option (List ℕ) → Loop → Next
unfolding emit
write_to none l = crashed
write_to (some b) l = running (emit (wrote b) l)

-- "@Ping"
abbrev ping_query : List ℕ
ping_query = b'@' ∷ b'P' ∷ b'i' ∷ b'n' ∷ b'g' ∷ []

unfoldable pub send_ping : Loop → Next
unfolding write_to
send_ping = write_to (serialize (new_procedure_invocation_by_handle ping_handle true ping_query []))

unfoldable pub ping_due : ℤ → Loop → Bool
ping_due now l = not l.ping_outstanding && ltb_ℤ ping_interval (now -ℤ l.ping_sent_time)

unfoldable pub check_ping : ℤ → Loop → Next
check_ping now l =
    if ping_due now l
    then send_ping (record l { ping_outstanding = true; ping_sent_time = now })
    else running l

unfoldable pub setup : ℤ → ℕ → ℕ → Loop → Next
unfolding check_drain check_pressure check_ping
setup now nc_len pi_len l = check_ping now (check_pressure (check_drain nc_len pi_len l))
