-- ===== src/Node/Pressure.antt =====
-- Back pressure (the top of an iteration of `loop`, voltdbclient/node_conn.go).
use voltdb_client_go.Common.{
  ◌≡◌, refl, ap, sym, ◌∙◌, true, false, not, ltb_ℤ, Bool, Bool-cases, inl, inr,
}
use voltdb_client_go.Node.State.{Loop, max_queued_bytes}
use voltdb_client_go.Node.Setup.{check_pressure}

not-not : (b : Bool) → not (not b) ≡ b
not-not true = refl
not-not false = refl

flips_once :
    (l : Loop) (b : Bool)
    → ltb_ℤ max_queued_bytes l.queued_bytes ≡ true
    → l.nc_pi_open ≡ b
    → check_pressure l ≡ record l { nc_pi_open = not b; bp = b }
unfolding check_pressure
flips_once l true over o = simp (over, o)
flips_once l false over o = simp (over, o)

flips_twice :
    (l : Loop) (b : Bool)
    → ltb_ℤ max_queued_bytes l.queued_bytes ≡ true
    → l.nc_pi_open ≡ b
    → ((check_pressure l).nc_pi_open ≡ not l.nc_pi_open)
      × ((check_pressure (check_pressure l)).nc_pi_open ≡ l.nc_pi_open)
flips_twice l b over o =
    let closed : Loop = record l { nc_pi_open = not b; bp = b } in
    let once = flips_once l b over o in
    let twice : (check_pressure closed).nc_pi_open ≡ not (not b) =
      ap (λ m. m.nc_pi_open) (flips_once closed (not b) over refl) in
    (
      ap (λ m. m.nc_pi_open) once ∙ ap not (sym o),
      ap (λ m. (check_pressure m).nc_pi_open) once ∙ twice ∙ not-not b ∙ sym o,
    )

-- While more than the allowed bytes are queued, the top of an iteration opens the node's own channel
-- if it is closed and closes it if it is open, so every second iteration reads from it although the
-- bytes are still queued.
pub check_pressure_flips :
    (l : Loop)
    → ltb_ℤ max_queued_bytes l.queued_bytes ≡ true
    → ((check_pressure l).nc_pi_open ≡ not l.nc_pi_open)
      × ((check_pressure (check_pressure l)).nc_pi_open ≡ l.nc_pi_open)
check_pressure_flips l over = elim (Bool-cases l.nc_pi_open) [
  | inl o ↦ flips_twice l true over o
  | inr c ↦ flips_twice l false over c
]
