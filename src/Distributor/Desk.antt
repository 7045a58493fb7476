-- ===== src/Distributor/Desk.antt =====
-- What the distributor's `loop` (voltdbclient/distributor.go) is to its callers: a desk without
-- client affinity, which passes invocations on and answers Drain and Close.
use voltdb_client_go.Common.{
  ℕ, ◌==◌, if◌then◌else◌, Bool, true, false, ◌&&◌, ℤ, pos, ◌-ℤ◌, eqb_ℤ, Option, some, List, [], ◌∷◌,
  length,
}
use voltdb_client_go.Distributor.State.{
  Effect, submitted, to_all, asked_topo, asked_stats, asked_catalog, close_node, drain_node, closed,
  drained, Loop,
}
use voltdb_client_go.Distributor.Loop.{Event, Round}

pub record Desk : Type 0 where
  pub open_for_calls : Bool
  pub nodes : ℕ
  pub draining : Bool
  pub drain_caller : Option ℕ
  pub hears_drained : Bool
  pub drains_left : ℤ
  pub close_caller : Option ℕ
  pub hears_closed : Bool
  pub closes_left : ℤ
  pub sent : List Effect

-- What a caller can tell of the effects.
unfoldable pub visible : List Effect → List Effect
visible [] = []
visible (submitted nc pi ∷ xs) = submitted nc pi ∷ visible xs
visible (to_all pi ∷ xs) = to_all pi ∷ visible xs
visible (closed ch ∷ xs) = closed ch ∷ visible xs
visible (drained ch ∷ xs) = drained ch ∷ visible xs
visible (asked_topo nc ∷ xs) = visible xs
visible (asked_stats nc ∷ xs) = visible xs
visible (asked_catalog nc ∷ xs) = visible xs
visible (close_node nc ∷ xs) = visible xs
visible (drain_node nc ∷ xs) = visible xs

unfoldable pub desk_of : Loop → Desk
unfolding visible
desk_of l = record {
  open_for_calls = l.in_open;
  nodes = length l.connected;
  draining = l.draining;
  drain_caller = l.drain_resp_ch;
  hears_drained = l.draining_ncs_open;
  drains_left = l.outstanding_drain_count;
  close_caller = l.close_resp_ch;
  hears_closed = l.closing_ncs_open;
  closes_left = l.outstanding_close_count;
  sent = visible l.effects;
}

pub data Service : Type 0 where
  going : Desk → Service
  over : Desk → Service

unfoldable pub tell : Effect → Desk → Desk
tell x d = record d { sent = x ∷ d.sent }

unfoldable pub before_event : ℕ → Desk → Desk
unfolding tell
before_event in_len d =
    if d.draining && in_len == 0 && eqb_ℤ d.drains_left (pos 0)
    then tell (drained d.drain_caller) (record d { hears_drained = false; draining = false })
    else d

unfoldable pub take_close : ℕ → Desk → Desk
unfolding tell
take_close ch d =
    let shut = record d { open_for_calls = false; close_caller = some ch } in
    if d.nodes == 0
    then tell (closed (some ch)) shut
    else record shut { closes_left = pos d.nodes; hears_closed = true }

unfoldable pub node_closed : Desk → Service
unfolding tell
node_closed d =
    let fewer = record d { closes_left = d.closes_left -ℤ pos 1 } in
    if eqb_ℤ fewer.closes_left (pos 0)
    then over (tell (closed d.close_caller) fewer)
    else going fewer

unfoldable pub take_drain : ℕ → Desk → Desk
unfolding tell
take_drain ch d =
    let heard = record d { drain_caller = some ch } in
    if d.draining
    then heard
    else if d.nodes == 0
    then tell (drained (some ch)) heard
    else record heard { draining = true; drains_left = pos d.nodes; hears_drained = true }

unfoldable pub attend : Event → Desk → Service
unfolding take_close node_closed take_drain tell
attend (Event.close ch) d = if d.open_for_calls then going (take_close ch d) else going d
attend Event.closing_nc d = if d.hears_closed then node_closed d else going d
attend (Event.topo_resp b) d = going d
attend (Event.topo_stats_resp r) d = going d
attend (Event.pr_info_resp r) d = going d
attend (Event.invoke w pi) d = if d.open_for_calls then going (tell (to_all pi) d) else going d
attend (Event.drain ch) d = if d.open_for_calls then going (take_drain ch d) else going d
attend Event.draining_nc d =
    if d.hears_drained then going (record d { drains_left = d.drains_left -ℤ pos 1 }) else going d

unfoldable pub and_then : Service → (Desk → Service) → Service
and_then (going d) k = k d
and_then (over d) k = over d

unfoldable pub serve : List Round → Desk → Service
unfolding and_then before_event attend
serve [] d = going d
serve (r ∷ rs) d = and_then (attend r.event (before_event r.in_len d)) (serve rs)
