-- ===== src/Node/Requests.antt =====
-- The map of outstanding requests (voltdbclient/node_conn.go): its handles are distinct, and its
-- bytes add up.
use voltdb_client_go.Common.{
  ◌≡◌, refl, sym, ap, ◌∙◌, arith, false, ℤ, pos, ◌+ℤ◌, ◌-ℤ◌, eqb_ℤ, none, some, List, [], ◌∷◌,
  Bool-cases, inl, inr, +ℤ-sub_self, +ℤ-sub_assoc, eqb_ℤ→eq, eqb_ℤ_refl, eqb_ℤ_sym, if◌then◌else◌,
}
use voltdb_client_go.Node.State.{NetworkRequest, find_request, delete_request, put_request}

-- The bytes of the requests that wait for a response.
abbrev pub total : List NetworkRequest → ℤ
total [] = pos 0
total (r ∷ rs) = r.num_bytes +ℤ total rs

abbrev pub Distinct : List NetworkRequest → Type 0
Distinct [] = Unit {0}
Distinct (r ∷ rs) = (find_request r.handle rs ≡ none) × Distinct rs

pub delete_fresh :
    (h : ℤ) (rs : List NetworkRequest) → find_request h rs ≡ none → delete_request h rs ≡ rs
unfolding find_request delete_request
delete_fresh h [] e = refl
delete_fresh h (r ∷ rs) e = ground (arith, delete_fresh h rs)

pub find-delete : (h : ℤ) (rs : List NetworkRequest) → find_request h (delete_request h rs) ≡ none
unfolding find_request delete_request
find-delete h [] = refl
find-delete h (r ∷ rs) = ground (arith, find-delete h rs)

pub find-delete_none :
    (k h : ℤ) (rs : List NetworkRequest)
    → find_request k rs ≡ none
    → find_request k (delete_request h rs) ≡ none
unfolding find_request delete_request
find-delete_none k h [] e = refl
find-delete_none k h (r ∷ rs) e = ground (arith, find-delete_none k h rs)

pub Distinct-delete :
    (h : ℤ) (rs : List NetworkRequest) → Distinct rs → Distinct (delete_request h rs)
unfolding delete_request
Distinct-delete h [] d = tt
Distinct-delete h (r ∷ rs) d =
    ground (arith, Distinct-delete h rs d.1, find-delete_none r.handle h rs)

pub Distinct-put :
    (r : NetworkRequest) (rs : List NetworkRequest) → Distinct rs → Distinct (put_request r rs)
unfolding put_request
Distinct-put r rs d = (find-delete r.handle rs, Distinct-delete r.handle rs d)

pub total-delete :
    (h : ℤ) (r : NetworkRequest) (rs : List NetworkRequest)
    → Distinct rs
    → find_request h rs ≡ some r
    → total (delete_request h rs) ≡ total rs -ℤ r.num_bytes
unfolding find_request delete_request
total-delete h r [] d e = ground arith
total-delete h r (x ∷ rs) d e = elim (Bool-cases (eqb_ℤ x.handle h)) [
  | inl hit ↦
      let same : x ≡ r = ground arith in
      let none_left : find_request h rs ≡ none = rw (eqb_ℤ→eq x.handle h hit) at (d.0) in
      rw (hit, delete_fresh h rs none_left) (rw (← same) (sym (+ℤ-sub_self x.num_bytes (total rs))))
  | inr miss ↦
      let found : find_request h rs ≡ some r = ground arith in
      rw miss (
        ap (◌+ℤ◌ x.num_bytes) (total-delete h r rs d.1 found)
        ∙ +ℤ-sub_assoc x.num_bytes (total rs) r.num_bytes)
]

pub find-delete_ne :
    (k h : ℤ) (rs : List NetworkRequest)
    → eqb_ℤ k h ≡ false
    → find_request k (delete_request h rs) ≡ find_request k rs
unfolding find_request delete_request
find-delete_ne k h [] e = refl
find-delete_ne k h (r ∷ rs) e = elim (Bool-cases (eqb_ℤ r.handle h)) [
  | inl hit ↦
      let other : eqb_ℤ r.handle k ≡ false = ground (arith, eqb_ℤ→eq r.handle h) in
      rw (hit, other) (find-delete_ne k h rs e)
  | inr miss ↦ rw miss (ap (λ o. if eqb_ℤ r.handle k then some r else o) (find-delete_ne k h rs e))
]

-- Each of the first requests is what the map holds under its handle.
abbrev pub AllHeld : List NetworkRequest → List NetworkRequest → Type 0
AllHeld [] rs = Unit {0}
AllHeld (x ∷ xs) rs = (find_request x.handle rs ≡ some x) × AllHeld xs rs

pub AllHeld-delete :
    (h : ℤ) (xs rs : List NetworkRequest)
    → find_request h xs ≡ none
    → AllHeld xs rs
    → AllHeld xs (delete_request h rs)
unfolding find_request
AllHeld-delete h [] rs e a = tt
AllHeld-delete h (x ∷ xs) rs e (a, b) =
    let other : eqb_ℤ x.handle h ≡ false = ground arith in
    let tail : find_request h xs ≡ none = ground arith in
    (find-delete_ne x.handle h rs other ∙ a, AllHeld-delete h xs rs tail b)

AllHeld-cons :
    (r : NetworkRequest) (xs rs : List NetworkRequest)
    → find_request r.handle xs ≡ none
    → AllHeld xs rs
    → AllHeld xs (r ∷ rs)
unfolding find_request
AllHeld-cons r [] rs e a = tt
AllHeld-cons r (x ∷ xs) rs e (a, b) =
    let other : eqb_ℤ x.handle r.handle ≡ false = ground arith in
    let tail : find_request r.handle xs ≡ none = ground arith in
    (rw (eqb_ℤ_sym r.handle x.handle, other) a, AllHeld-cons r xs rs tail b)

pub AllHeld-refl : (rs : List NetworkRequest) → Distinct rs → AllHeld rs rs
unfolding find_request
AllHeld-refl [] d = tt
AllHeld-refl (r ∷ rs) (e, d) =
    (rw (eqb_ℤ_refl r.handle), AllHeld-cons r rs rs e (AllHeld-refl rs d))
