-- ===== src/Limiter/Semaphore.antt =====
-- The transaction limiter (voltdbclient/txn_limiter.go): a buffered channel as a semaphore. A caller
-- of `limit` is known by a number. Senders wait in line for room in the channel, and a receive that
-- finds it empty waits for a sender.
use voltdb_client_go.Common.{
  ℕ, ◌+◌, ◌-◌, ◌≤◌, ◌==◌, ltb, ◌≡◌, ◌⊎◌, inl, inr, refl, arith, Bool, true, false, if◌then◌else◌,
  List, [], ◌∷◌, ◌++◌,
}

pub record TxnLimiter : Type 0 where
  pub capacity : ℕ
  pub held : ℕ
  pub senders : List ℕ
  pub receivers : ℕ

unfoldable pub new_txn_limiter_with_max_out_txns : ℕ → TxnLimiter
new_txn_limiter_with_max_out_txns max_out_txns = record {
  capacity = max_out_txns;
  held = 0;
  senders = [];
  receivers = 0;
}

unfoldable pub new_txn_limiter : TxnLimiter
unfolding new_txn_limiter_with_max_out_txns
new_txn_limiter = new_txn_limiter_with_max_out_txns 10

-- What happens: a caller comes, its timer fires, or a response is received.
pub data Happening : Type 0 where
  limit expire : ℕ → Happening
  respond : Happening

unfoldable pub remove_sender : ℕ → List ℕ → List ℕ
remove_sender i [] = []
remove_sender i (j ∷ js) = let rest = remove_sender i js in if j == i then rest else j ∷ rest

-- A send: to a receiver that waits, into the channel, or in line.
unfoldable pub send : ℕ → TxnLimiter → TxnLimiter
send i tl =
    if ltb 0 tl.receivers
    then record tl { receivers = tl.receivers - 1 }
    else if ltb tl.held tl.capacity
    then record tl { held = tl.held + 1 }
    else record tl { senders = tl.senders ++ (i ∷ []) }

-- A receive: the first in line takes the room that it makes.
unfoldable pub receive : List ℕ → TxnLimiter → TxnLimiter
receive (j ∷ js) tl = record tl { senders = js }
receive [] tl =
    if ltb 0 tl.held
    then record tl { held = tl.held - 1 }
    else record tl { receivers = tl.receivers + 1 }

unfoldable pub happen : Happening → TxnLimiter → TxnLimiter
unfolding send receive remove_sender
happen (limit i) tl = send i tl
happen (expire i) tl = record tl { senders = remove_sender i tl.senders }
happen respond tl = receive tl.senders tl

unfoldable pub happen_all : List Happening → TxnLimiter → TxnLimiter
unfolding happen
happen_all [] tl = tl
happen_all (x ∷ xs) tl = happen_all xs (happen x tl)

-- No more permits are out than the limiter has, a caller waits only while all are out, and a
-- response only while none is.
pub record IsFair (tl : TxnLimiter) : Type 0 where
  pub bound : tl.held ≤ tl.capacity
  pub full : (tl.senders ≡ []) ⊎ (tl.held ≡ tl.capacity)
  pub idle : (tl.receivers ≡ 0) ⊎ ((tl.held ≡ 0) × (tl.senders ≡ []))

remove_sender-nil : (i : ℕ) (js : List ℕ) → js ≡ [] → remove_sender i js ≡ []
unfolding remove_sender
remove_sender-nil i [] e = refl
remove_sender-nil i (j ∷ js) e = absurd (ground arith)

IsFair-if :
    (b : Bool) (k l : TxnLimiter)
    → ((b ≡ true) → IsFair k)
    → ((b ≡ false) → IsFair l)
    → IsFair (if b then k else l)
IsFair-if true k l h j = h refl
IsFair-if false k l h j = j refl

send-IsFair : (i : ℕ) (tl : TxnLimiter) → IsFair tl → IsFair (send i tl)
unfolding send
send-IsFair i tl v =
    let still : ltb 0 tl.receivers ≡ true
        → (tl.receivers - 1 ≡ 0) ⊎ ((tl.held ≡ 0) × (tl.senders ≡ [])) =
      λ waits. elim v.idle [ inl z ↦ absurd (ground arith) | inr p ↦ inr p ] in
    let no_line : ltb tl.held tl.capacity ≡ true → (tl.senders ≡ []) ⊎ (tl.held + 1 ≡ tl.capacity) =
      λ room. elim v.full [ inl e ↦ inl e | inr f ↦ absurd (ground arith) ] in
    IsFair-if (ltb 0 tl.receivers) _ _
      (λ waits. record { bound = v.bound; full = v.full; idle = still waits })
      (λ alone.
        IsFair-if (ltb tl.held tl.capacity) _ _
          (λ room. record { bound = ground arith; full = no_line room; idle = inl (ground arith) })
          (λ none_left. record {
            bound = v.bound;
            full = inr (ground (arith, v.bound));
            idle = inl (ground arith);
          }))

receive-IsFair :
    (js : List ℕ) (tl : TxnLimiter) → tl.senders ≡ js → IsFair tl → IsFair (receive js tl)
unfolding receive
receive-IsFair (j ∷ js) tl e v =
    let in_line : (js ≡ []) ⊎ (tl.held ≡ tl.capacity) = elim v.full [
      | inl n ↦ absurd (ground arith)
      | inr f ↦ inr f
    ] in
    let no_idle : (tl.receivers ≡ 0) ⊎ ((tl.held ≡ 0) × (js ≡ [])) = elim v.idle [
      | inl z ↦ inl z
      | inr p ↦ absurd (ground (arith, p.1))
    ] in
    record { bound = v.bound; full = in_line; idle = no_idle }
receive-IsFair [] tl e v =
    let busy : ltb 0 tl.held ≡ true → (tl.receivers ≡ 0) ⊎ ((tl.held - 1 ≡ 0) × (tl.senders ≡ [])) =
      λ out. elim v.idle [ inl z ↦ inl z | inr p ↦ absurd (ground (arith, p.0)) ] in
    IsFair-if (ltb 0 tl.held) _ _
      (λ some_out. record { bound = ground (arith, v.bound); full = inl e; idle = busy some_out })
      (λ none_out. record { bound = v.bound; full = inl e; idle = inr (ground arith, e) })

happen-IsFair : (x : Happening) (tl : TxnLimiter) → IsFair tl → IsFair (happen x tl)
unfolding happen
happen-IsFair (limit i) tl v = send-IsFair i tl v
happen-IsFair (expire i) tl v = record {
  bound = v.bound;
  full = elim v.full [ inl e ↦ inl (remove_sender-nil i tl.senders e) | inr f ↦ inr f ];
  idle = elim v.idle [ inl z ↦ inl z | inr p ↦ inr (p.0, remove_sender-nil i tl.senders p.1) ];
}
happen-IsFair respond tl v = receive-IsFair tl.senders tl refl v

-- However calls, timers and responses come, no more permits are out than the limiter was made with,
-- a caller waits only while all of them are out, and a response only while none is.
pub happen_all-IsFair :
    (xs : List Happening) (tl : TxnLimiter) → IsFair tl → IsFair (happen_all xs tl)
unfolding happen_all
happen_all-IsFair [] tl v = v
happen_all-IsFair (x ∷ xs) tl v = happen_all-IsFair xs (happen x tl) (happen-IsFair x tl v)

pub new_txn_limiter-IsFair : (n : ℕ) → IsFair (new_txn_limiter_with_max_out_txns n)
unfolding new_txn_limiter_with_max_out_txns
new_txn_limiter-IsFair n = record { bound = omega arith; full = inl refl; idle = inl refl }
