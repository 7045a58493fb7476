-- ===== src/Result/Cursor.antt =====
-- The cursor of a VoltResult (voltdbclient/result.go) stays on a table, and visits all of them.
use voltdb_client_go.Common.{
  ℕ, zero, suc, ◌+◌, ◌<◌, ◌^◌, ◌≡◌, refl, sym, ap, ◌∙◌, subst, arith, true, false, Bool-cases, inl,
  inr, if◌then◌else◌, ℤ, pos, negsuc, ltb_ℤ, ◌+ℤ◌, Option, some, List, [], ◌∷◌, length, drop, map,
  get_elem?, get_elem?-drop, get_elem?-in, ◌≤◌,
}
use voltdb_client_go.Word.{wrap, w64}
use voltdb_client_go.Table.{index}
use voltdb_client_go.Response.{VoltResponseInfo, VoltResult, new_volt_result}
use voltdb_client_go.Result.{advance_to_table, advance_table, rows_affected}

-- The calls that move the cursor.
pub data Call : Type 0 where
  next : Call
  to : ℤ → Call

pub moved : Call → VoltResult → VoltResult
unfolding advance_table advance_to_table
moved Call.next vr = (advance_table vr).1
moved (Call.to ti) vr = (advance_to_table ti vr).1

pub moved_all : List Call → VoltResult → VoltResult
unfolding moved
moved_all [] vr = vr
moved_all (c ∷ cs) vr = moved_all cs (moved c vr)

-- The cursor is on a table.
abbrev pub IsPlaced : VoltResult → Type 0
IsPlaced vr = (i : ℕ) × ((vr.ti ≡ pos i) × (i < length vr.rows_aff))

abbrev at_table : VoltResult → ℕ → VoltResult
at_table vr j = record vr { ti = pos j }

advance_to_table-in :
    (j : ℕ) (vr : VoltResult)
    → j < length vr.rows_aff
    → advance_to_table (pos j) vr ≡ (true, at_table vr j)
unfolding advance_to_table
advance_to_table-in j vr h =
    let inside : ltb_ℤ (pos j) (pos (length vr.rows_aff)) ≡ true = ground arith in
    let natural : ltb_ℤ (pos j) (pos 0) ≡ false = ground arith in rw (inside, natural) refl

advance_to_table-out :
    (ti : ℤ) (vr : VoltResult)
    → ltb_ℤ ti (pos (length vr.rows_aff)) ≡ false
    → advance_to_table ti vr ≡ (false, vr)
unfolding advance_to_table
advance_to_table-out ti vr e = rw e refl

advance_to_table_negative : (j : ℕ) (vr : VoltResult) → advance_to_table (negsuc j) vr ≡ (false, vr)
unfolding advance_to_table
advance_to_table_negative j vr =
    let below : ltb_ℤ (negsuc j) (pos (length vr.rows_aff)) ≡ true = ground arith in
    let negative : ltb_ℤ (negsuc j) (pos 0) ≡ true = ground arith in rw (below, negative) refl

-- A cursor on a table, over these counts.
abbrev On : List ℤ → VoltResult → Type 0
On ns vr = (vr.rows_aff ≡ ns) × IsPlaced vr

advance_to_table-On :
    (ns : List ℤ) (ti : ℤ) (vr : VoltResult) → On ns vr → On ns (advance_to_table ti vr).1
unfolding advance_to_table
advance_to_table-On ns (negsuc j) vr h =
    subst (λ r. On ns r.1) (sym (advance_to_table_negative j vr)) h
advance_to_table-On ns (pos j) vr (same, placed) =
    elim (Bool-cases (ltb_ℤ (pos j) (pos (length vr.rows_aff)))) [
      | inl e ↦
          (let inside : j < length vr.rows_aff = ground arith in
            subst (λ r. On ns r.1) (sym (advance_to_table-in j vr inside))
              (same, (j, (refl, inside))))
      | inr e ↦ subst (λ r. On ns r.1) (sym (advance_to_table-out (pos j) vr e)) (same, placed)
    ]

moved-On : (ns : List ℤ) (c : Call) (vr : VoltResult) → On ns vr → On ns (moved c vr)
unfolding moved advance_table
moved-On ns Call.next vr h = advance_to_table-On ns (wrap w64 (vr.ti +ℤ pos 1)) vr h
moved-On ns (Call.to ti) vr h = advance_to_table-On ns ti vr h

moved_all-On : (ns : List ℤ) (cs : List Call) (vr : VoltResult) → On ns vr → On ns (moved_all cs vr)
unfolding moved_all
moved_all-On ns [] vr h = h
moved_all-On ns (c ∷ cs) vr h = moved_all-On ns cs (moved c vr) (moved-On ns c vr h)

-- Whatever calls have moved the cursor of the result of a response with a table, valid or not,
-- RowsAffected does not panic: it returns the count of one of the tables, the one the cursor is on.
pub rows_affected-some :
    (rsp : VoltResponseInfo) (n : ℤ) (ns : List ℤ) (cs : List Call)
    → (i : ℕ) × (a : ℤ) × ((moved_all cs (new_volt_result rsp (n ∷ ns))).ti ≡ pos i)
      × (get_elem? (n ∷ ns) i ≡ some a)
      × (rows_affected (moved_all cs (new_volt_result rsp (n ∷ ns))) ≡ some a)
unfolding rows_affected index new_volt_result
rows_affected-some rsp n ns cs =
    let s : VoltResult = moved_all cs (new_volt_result rsp (n ∷ ns)) in
    let (same, (i, (e, inside))) =
      moved_all-On (n ∷ ns) cs (new_volt_result rsp (n ∷ ns)) (refl, (0, (refl, omega arith))) in
    let (a, found) =
      get_elem?-in (n ∷ ns) i (omega (arith, subst (λ xs. i < length xs) same inside)) in
    (i, a, e, found, ap (λ xs. index xs s.ti) same ∙ ap (index (n ∷ ns)) e ∙ found)

-- A client that reads a count and moves on while there is a table.
pub visit : ℕ → VoltResult → List (Option ℤ)
visit zero vr = []
visit (suc n) vr =
    let rest = visit n (advance_table vr).1 in
    rows_affected vr ∷ (if (advance_table vr).0 then rest else [])

next_table : (i : ℕ) → i + 1 < 2 ^ 63 → wrap w64 (pos i +ℤ pos 1) ≡ pos (suc i)
next_table i h = ground arith

advance_table-at :
    (vr : VoltResult) (i : ℕ)
    → i + 1 < 2 ^ 63
    → advance_table (at_table vr i) ≡ advance_to_table (pos (suc i)) (at_table vr i)
unfolding advance_table
advance_table-at vr i h = ap (λ z. advance_to_table z (at_table vr i)) (next_table i h)

visit-from :
    (vr : VoltResult) (i n : ℕ) (a : ℤ) (later : List ℤ)
    → drop i vr.rows_aff ≡ a ∷ later
    → i + suc (length later) ≡ length vr.rows_aff
    → length vr.rows_aff < 2 ^ 63
    → length later ≤ n
    → visit (suc n) (at_table vr i) ≡ map some (a ∷ later)
unfolding visit rows_affected index
visit-from vr i n a [] e len small enough =
    let (read, past) = get_elem?-drop vr.rows_aff i a [] e in
    let last : advance_table (at_table vr i) ≡ (false, at_table vr i) =
      advance_table-at vr i (omega (arith, len))
      ∙ advance_to_table-out (pos (suc i)) (at_table vr i) (ground (arith, len)) in
    rw (read, last) refl
visit-from vr i zero a (b ∷ later) e len small enough = absurd (omega arith)
visit-from vr i (suc n) a (b ∷ later) e len small enough =
    let (read, past) = get_elem?-drop vr.rows_aff i a (b ∷ later) e in
    let more : advance_table (at_table vr i) ≡ (true, at_table vr (suc i)) =
      advance_table-at vr i (omega (arith, len))
      ∙ advance_to_table-in (suc i) (at_table vr i) (omega (arith, len)) in
    let rest : visit (suc n) (at_table vr (suc i)) ≡ map some (b ∷ later) =
      visit-from vr (suc i) n b later past (omega (arith, len)) small (omega arith) in
    rw (read, more) (rw rest refl)

-- A client that reads the count and moves on with AdvanceTable while there is a table visits the
-- tables of a response one after the other, each once, and comes to an end.
pub visit-all :
    (rsp : VoltResponseInfo) (a : ℤ) (later : List ℤ) (n : ℕ)
    → length (a ∷ later) < 2 ^ 63
    → length (a ∷ later) ≤ n
    → visit n (new_volt_result rsp (a ∷ later)) ≡ map some (a ∷ later)
unfolding new_volt_result
visit-all rsp a later zero small enough = absurd (omega arith)
visit-all rsp a later (suc n) small enough =
    visit-from (new_volt_result rsp (a ∷ later)) 0 n a later refl (omega arith) small (omega arith)
