-- ===== src/Hashinator/Padding.antt =====
-- The table that unmarshalJSONConfig (voltdbclient/hashinator.go) builds: its order, and what the
-- 128 entries that `make` puts in front do to the search.
use voltdb_client_go.Common.{
  ℕ, zero, suc, ◌<◌, ◌≡◌, subst, refl, sym, ap, ◌∙◌, ◌⊎◌, arith, false, true, ℤ, pos, ltb_ℤ, ◌≤ℤ◌,
  none, some, List, [], ◌∷◌, ◌++◌, All, replicate, Bool-cases, inl, inr,
}
use voltdb_client_go.Hashinator.{
  Token2Partition, zero_token, search_token2_partitions, insert_token, sort_tokens,
  unmarshal_json_config,
}
use voltdb_client_go.Hashinator.Search.{IsSorted, floor, search_token2_partitions-floor}

module _ (P : Token2Partition → Type 0) where
  All-insert_token :
      (t : Token2Partition) (ts : List Token2Partition) → P t → All P ts → All P (insert_token t ts)
  unfolding insert_token
  All-insert_token t [] p a = (p, tt)
  All-insert_token t (u ∷ us) p (q, a) = elim (Bool-cases (ltb_ℤ u.token t.token)) [
    | inl l ↦ rw l (q, All-insert_token t us p a)
    | inr g ↦ rw g (p, (q, a))
  ]

  All-sort_tokens : (ts : List Token2Partition) → All P ts → All P (sort_tokens ts)
  unfolding sort_tokens
  All-sort_tokens [] a = tt
  All-sort_tokens (t ∷ ts) (p, a) = All-insert_token t (sort_tokens ts) p (All-sort_tokens ts a)

above_trans :
    (t u : Token2Partition) (us : List Token2Partition)
    → ltb_ℤ u.token t.token ≡ false
    → All (λ v. u.token ≤ℤ v.token) us
    → All (λ v. t.token ≤ℤ v.token) us
above_trans t u [] g a = tt
above_trans t u (v ∷ us) g (p, a) = (ground arith, above_trans t u us g a)

insert_token-IsSorted :
    (t : Token2Partition) (ts : List Token2Partition) → IsSorted ts → IsSorted (insert_token t ts)
unfolding insert_token
insert_token-IsSorted t [] s = (tt, tt)
insert_token-IsSorted t (u ∷ us) (a, s) = elim (Bool-cases (ltb_ℤ u.token t.token)) [
  | inl l ↦ rw l (
    All-insert_token (λ v. u.token ≤ℤ v.token) t us (ground arith) a,
    insert_token-IsSorted t us s,
  )
  | inr g ↦ rw g ((ground arith, above_trans t u us g a), (a, s))
]

pub sort_tokens-IsSorted : (ts : List Token2Partition) → IsSorted (sort_tokens ts)
unfolding sort_tokens
sort_tokens-IsSorted [] = tt
sort_tokens-IsSorted (t ∷ ts) = insert_token-IsSorted t (sort_tokens ts) (sort_tokens-IsSorted ts)

-- The search in the table of a configuration finds the partition of the last entry with a token
-- below the hash, or panics if there is none.
pub unmarshal_json_config-floor :
    (sk : List Token2Partition) (h : ℤ)
    → search_token2_partitions (unmarshal_json_config sk) h ≡ floor h (unmarshal_json_config sk)
unfolding unmarshal_json_config
unmarshal_json_config-floor sk h =
    search_token2_partitions-floor (sort_tokens (replicate 128 zero_token ++ sk)) h
      (sort_tokens-IsSorted (replicate 128 zero_token ++ sk))

-- No entry has a token in [0, h) but those of partition 0 at token 0.
abbrev pub IsOutside : ℤ → Token2Partition → Type 0
IsOutside h t = (t ≡ zero_token) ⊎ ((ltb_ℤ t.token (pos 0) ≡ true) ⊎ (ltb_ℤ t.token h ≡ false))

Has : Token2Partition → List Token2Partition → Type 0
Has t [] = ⊥
Has t (u ∷ us) = (t ≡ u) ⊎ Has t us

Has-insert_token : (t : Token2Partition) (ts : List Token2Partition) → Has t (insert_token t ts)
unfolding insert_token Has
Has-insert_token t [] = inl refl
Has-insert_token t (u ∷ us) = elim (Bool-cases (ltb_ℤ u.token t.token)) [
  | inl l ↦ rw l (inr (Has-insert_token t us))
  | inr g ↦ rw g (inl refl)
]

Has-sort_tokens : (t : Token2Partition) (ts : List Token2Partition) → Has t (sort_tokens (t ∷ ts))
unfolding sort_tokens
Has-sort_tokens t ts = Has-insert_token t (sort_tokens ts)

padded :
    (k : ℕ) (sk : List Token2Partition) (h : ℤ)
    → All (IsOutside h) sk
    → All (IsOutside h) (replicate k zero_token ++ sk)
padded zero sk h a = a
padded (suc k) sk h a = (inl refl, padded k sk h a)

-- Behind a zero token the scan finds nothing, or partition 0.
floor_nonneg :
    (h : ℤ) (ts : List Token2Partition)
    → All (IsOutside h) ts
    → All (λ u. pos 0 ≤ℤ u.token) ts
    → (floor h ts ≡ none) ⊎ (floor h ts ≡ some (pos 0))
unfolding floor
floor_nonneg h [] a n = inl refl
floor_nonneg h (t ∷ ts) (o, a) (p, n) = elim (floor_nonneg h ts a n) [
  | inr e ↦ inr (rw e)
  | inl e ↦ elim o [
    | inl z ↦ elim (Bool-cases (ltb_ℤ t.token h)) [
      | inl b ↦ inr (rw (e, b) (ap (λ u. some u.partition) z))
      | inr g ↦ inl (rw (e, g))
    ]
    | inr (inl neg) ↦ absurd (ground arith)
    | inr (inr out) ↦ inl (rw (e, out))
  ]
]

nonneg :
    (t : ℤ) (ts : List Token2Partition)
    → pos 0 ≡ t
    → All (λ u. t ≤ℤ u.token) ts
    → All (λ u. pos 0 ≤ℤ u.token) ts
nonneg t [] z a = tt
nonneg t (u ∷ us) z (p, a) = (subst (λ x. x ≤ℤ u.token) (sym z) p, nonneg t us z a)

-- The scan at a zero token, by what it finds behind it.
floor_at_zero :
    (n : ℕ) (t : Token2Partition) (ts : List Token2Partition)
    → 0 < n
    → zero_token ≡ t
    → (floor (pos n) ts ≡ none) ⊎ (floor (pos n) ts ≡ some (pos 0))
    → floor (pos n) (t ∷ ts) ≡ some (pos 0)
unfolding floor
floor_at_zero n t ts l z (inr e) = rw e
floor_at_zero n t ts l z (inl e) =
    let below : ltb_ℤ (pos 0) (pos n) ≡ true = ground arith in rw e (rw (sym z) (rw below))

floor_zero :
    (n : ℕ) (ts : List Token2Partition)
    → 0 < n
    → All (IsOutside (pos n)) ts
    → IsSorted ts
    → Has zero_token ts
    → floor (pos n) ts ≡ some (pos 0)
unfolding floor Has
floor_zero n [] l a s h = absurd h
floor_zero n (t ∷ ts) l (o, a) (b, s) (inr h) = rw (floor_zero n ts l a s h)
floor_zero n (t ∷ ts) l (o, a) (b, s) (inl z) =
    floor_at_zero n t ts l z (floor_nonneg (pos n) ts a (nonneg t.token ts (ap (λ u. u.token) z) b))

-- The table starts from 128 entries with token 0 and partition 0, so a hash above 0 is sent to
-- partition 0 if every entry of the configuration is such an entry, has a token below 0, or has a
-- token that is not below the hash: what owns the last token below 0 is never found.
pub unmarshal_json_config-zero :
    (sk : List Token2Partition) (n : ℕ)
    → 0 < n
    → All (IsOutside (pos n)) sk
    → search_token2_partitions (unmarshal_json_config sk) (pos n) ≡ some (pos 0)
unfolding unmarshal_json_config
unmarshal_json_config-zero sk n l a =
    unmarshal_json_config-floor sk (pos n)
    ∙ floor_zero n (sort_tokens (replicate 128 zero_token ++ sk)) l
        (All-sort_tokens (IsOutside (pos n)) (replicate 128 zero_token ++ sk)
          (padded 128 sk (pos n) a))
        (sort_tokens-IsSorted (replicate 128 zero_token ++ sk))
        (Has-sort_tokens zero_token (replicate 127 zero_token ++ sk))
