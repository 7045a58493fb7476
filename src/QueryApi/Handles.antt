-- ===== src/QueryApi/Handles.antt =====
-- The handles that a connection gives to its calls (voltdbclient/query_api.go and
-- voltdbclient/distributor.go).
use voltdb_client_go.Common.{
  ℕ, zero, suc, ◌+◌, ◌<◌, ◌^◌, ◌≡◌, refl, sym, ap, ◌∙◌, arith, ℤ, pos, ◌+ℤ◌, List, [], ◌∷◌, ◌++◌,
  append_assoc, length, map,
}
use voltdb_client_go.Word.{wrap, w64}
use voltdb_client_go.Invocation.{new_sync_procedure_invocation, new_async_procedure_invocation}
use voltdb_client_go.QueryApi.{
  Conn, start, start_async, get_next_handle, send, exec_timeout, query_timeout, exec_async_timeout,
  query_async_timeout,
}
use voltdb_client_go.QueryApi.Answers.{Call, called, called_all}

abbrev pub handles : Conn → List ℤ
handles c = map (λ pi. pi.handle) c.in_pi_ch

-- The handles behind `h`, the last one first.
abbrev pub behind : ℕ → ℕ → List ℤ
behind h zero = []
behind h (suc n) = pos (h + suc n) ∷ behind h n

called-handle :
    (x : Call) (c : Conn)
    → ((called x c).handle ≡ wrap w64 (c.handle +ℤ pos 1))
      × (handles (called x c) ≡ wrap w64 (c.handle +ℤ pos 1) ∷ handles c)
unfolding called exec_timeout query_timeout exec_async_timeout query_async_timeout start start_async
    get_next_handle send new_sync_procedure_invocation new_async_procedure_invocation
called-handle (Call.exec text args timeout) c = (refl, refl)
called-handle (Call.query text args timeout) c = (refl, refl)
called-handle (Call.exec_async k text args timeout) c = (refl, refl)
called-handle (Call.query_async k text args timeout) c = (refl, refl)

next_lem : (z : ℤ) (h : ℕ) → z ≡ pos h → h + 1 < 2 ^ 63 → wrap w64 (z +ℤ pos 1) ≡ pos (suc h)
next_lem z h e small = ap (λ y. wrap w64 (y +ℤ pos 1)) e ∙ ground arith

behind-suc : (h n : ℕ) → behind (suc h) n ++ (pos (suc h) ∷ []) ≡ behind h (suc n)
behind-suc h zero = ap (λ k. pos k ∷ []) (omega arith)
behind-suc h (suc n) =
    ap (λ k. pos k ∷ (behind (suc h) n ++ (pos (suc h) ∷ []))) (omega arith)
    ∙ ap (◌∷◌ (pos (h + suc (suc n)))) (behind-suc h n)

-- As long as the counter does not come to its end, the calls of a connection get the numbers behind
-- the counter as their handles, one after the other, so no two get the same and none that of a ping.
pub called_all-handles :
    (xs : List Call) (c : Conn) (h : ℕ)
    → c.handle ≡ pos h
    → h + length xs + 1 < 2 ^ 63
    → handles (called_all xs c) ≡ behind h (length xs) ++ handles c
unfolding called_all
called_all-handles [] c h e small = refl
called_all-handles (x ∷ xs) c h e small =
    let (counter, sent) = called-handle x c in
    let next : wrap w64 (c.handle +ℤ pos 1) ≡ pos (suc h) =
      next_lem c.handle h e (omega (arith, small)) in
    let rest : List ℤ = behind (suc h) (length xs) in
    called_all-handles xs (called x c) (suc h) (counter ∙ next) (omega (arith, small))
    ∙ ap (λ hs. rest ++ hs) (sent ∙ ap (λ z. z ∷ handles c) next)
    ∙ sym (append_assoc rest (pos (suc h) ∷ []) (handles c))
    ∙ ap (λ hs. hs ++ handles c) (behind-suc h (length xs))
