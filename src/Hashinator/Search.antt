-- ===== src/Hashinator/Search.antt =====
-- SearchToken2Partitions (voltdbclient/utils.go) against a linear scan, and that the sort gives it
-- the order that it needs.
use voltdb_client_go.Common.{
  ℕ, zero, suc, ◌+◌, ◌/◌, ◌≤◌, ◌<◌, ◌≡◌, refl, sym, ap, ◌∙◌, arith, ltb, leb, if◌then◌else◌, Bool,
  true, false, ℤ, ltb_ℤ, ◌≤ℤ◌, Option, none, some, List, [], ◌∷◌, length, get_elem?, All,
  Bool-cases, inl, inr,
}
use voltdb_client_go.Hashinator.{
  Token2Partition, search_loop, search, reaches, partition_at, search_token2_partitions,
}

-- With a test that is false below `k` and true from there on, the loop ends at `k`: the distance of
-- its bounds is fuel enough.
pub search_loop_lem :
    (n : ℕ) (f : ℕ → Bool) (k i j : ℕ)
    → ((x : ℕ) → x < j → f x ≡ leb k x)
    → i ≤ k
    → k ≤ j
    → j ≤ n + i
    → search_loop n f i j ≡ k
unfolding search_loop
search_loop_lem zero f k i j e lo hi le = omega arith
search_loop_lem (suc n) f k i j e lo hi le = elim (Bool-cases (ltb i j)) [
  | inr done ↦ rw done (ground arith)
  | inl more ↦
      let h : ℕ = (i + j) / 2 in
      let inside : h < j = ground arith in
      elim (Bool-cases (leb k h)) [
        | inl up ↦
            rw (more, e h inside, up)
              (search_loop_lem n f k i h (λ x l. e x (omega arith)) lo (ground arith)
                (ground arith))
        | inr down ↦
            rw (more, e h inside, down)
              (search_loop_lem n f k (suc h) j e (ground arith) hi (ground arith))
      ]
]

-- The number of entries at the front with a token below `h`.
below : ℤ → List Token2Partition → ℕ
below h [] = 0
below h (t ∷ ts) = let rest = below h ts in if ltb_ℤ t.token h then suc rest else 0

abbrev pub IsSorted : List Token2Partition → Type 0
IsSorted [] = Unit {0}
IsSorted (t ∷ ts) = All (λ u. t.token ≤ℤ u.token) ts × IsSorted ts

-- The partition of the last entry with a token below `h`.
unfoldable pub floor : ℤ → List Token2Partition → Option ℤ
floor h [] = none
floor h (t ∷ ts) = elim (floor h ts) [
  | some p ↦ some p
  | none ↦ if ltb_ℤ t.token h then some t.partition else none
]

below_le : (h : ℤ) (ts : List Token2Partition) → below h ts ≤ length ts
unfolding below
below_le h [] = omega arith
below_le h (t ∷ ts) = elim (Bool-cases (ltb_ℤ t.token h)) [
  | inl l ↦ rw l (omega (arith, below_le h ts))
  | inr g ↦ rw g (omega arith)
]

reaches_above :
    (h : ℤ) (t : Token2Partition) (ts : List Token2Partition) (i : ℕ)
    → ltb_ℤ t.token h ≡ false
    → All (λ u. t.token ≤ℤ u.token) ts
    → reaches h (get_elem? ts i) ≡ true
unfolding reaches
reaches_above h t [] i g a = refl
reaches_above h t (u ∷ us) zero g (a, as') = let v : ltb_ℤ u.token h ≡ false = ground arith in rw v
reaches_above h t (u ∷ us) (suc i) g (a, as') = reaches_above h t us i g as'

reaches-below :
    (h : ℤ) (ts : List Token2Partition) (i : ℕ)
    → IsSorted ts
    → i < length ts
    → reaches h (get_elem? ts i) ≡ leb (below h ts) i
unfolding reaches below
reaches-below h [] i s l = absurd (omega arith)
reaches-below h (t ∷ ts) zero (a, s) l = elim (Bool-cases (ltb_ℤ t.token h)) [
  | inl b ↦ rw b (ground arith)
  | inr g ↦ rw g refl
]
reaches-below h (t ∷ ts) (suc i) (a, s) l = elim (Bool-cases (ltb_ℤ t.token h)) [
  | inl b ↦ rw (b, reaches-below h ts i s (omega arith)) (ground arith)
  | inr g ↦ rw (g, reaches_above h t ts i g a) (ground arith)
]

floor_above :
    (h : ℤ) (t : Token2Partition) (ts : List Token2Partition)
    → ltb_ℤ t.token h ≡ false
    → All (λ u. t.token ≤ℤ u.token) ts
    → floor h ts ≡ none
unfolding floor
floor_above h t [] g a = refl
floor_above h t (u ∷ us) g (a, as') =
    let v : ltb_ℤ u.token h ≡ false = ground arith in rw (floor_above h t us g as', v)

get_elem?-some :
    (ts : List Token2Partition) (i : ℕ)
    → i < length ts
    → (t : Token2Partition) × (get_elem? ts i ≡ some t)
get_elem?-some [] i l = absurd (omega arith)
get_elem?-some (t ∷ ts) zero l = (t, refl)
get_elem?-some (t ∷ ts) (suc i) l = get_elem?-some ts i (omega arith)

or_else :
    (o : Option Token2Partition) (u : Token2Partition) (d : Option ℤ)
    → o ≡ some u
    → elim o as (λ x. Option ℤ) [ none ↦ none | some p ↦ some p.partition ]
      ≡ elim (elim o as (λ x. Option ℤ) [ none ↦ none | some p ↦ some p.partition ])
          as (λ x. Option ℤ) [ some p ↦ some p | none ↦ d ]
or_else o u d e = rw e refl

partition_at-suc :
    (t : Token2Partition) (ts : List Token2Partition) (b : ℕ) (d : Option ℤ)
    → b ≤ length ts
    → some t.partition ≡ d
    → partition_at (t ∷ ts) (suc b) ≡ elim (partition_at ts b) [ some p ↦ some p | none ↦ d ]
unfolding partition_at
partition_at-suc t ts zero d l q = q
partition_at-suc t ts (suc b) d l q =
    let (u, e) = get_elem?-some ts b (omega arith) in or_else (get_elem? ts b) u d e

partition_at-below :
    (h : ℤ) (ts : List Token2Partition) → IsSorted ts → partition_at ts (below h ts) ≡ floor h ts
unfolding partition_at floor below
partition_at-below h [] s = refl
partition_at-below h (t ∷ ts) (a, s) = elim (Bool-cases (ltb_ℤ t.token h)) [
  | inl b ↦
      let step : below h (t ∷ ts) ≡ suc (below h ts) = rw b in
      rw (sym (partition_at-below h ts s)) (
        ap (partition_at (t ∷ ts)) step
        ∙ partition_at-suc t ts (below h ts) (if ltb_ℤ t.token h then some t.partition else none)
            (below_le h ts) (rw b))
  | inr g ↦ rw (floor_above h t ts g a, g) refl
]

-- On a sorted table the binary search finds the partition of the last entry with a token below the
-- given one; without such an entry the code panics.
pub search_token2_partitions-floor :
    (ts : List Token2Partition) (h : ℤ) → IsSorted ts → search_token2_partitions ts h ≡ floor h ts
unfolding search_token2_partitions search
search_token2_partitions-floor ts h s =
    ap (partition_at ts) (
      search_loop_lem (length ts) (λ i. reaches h (get_elem? ts i)) (below h ts) 0 (length ts)
        (λ x l. reaches-below h ts x s l) (omega arith) (below_le h ts) (omega arith))
    ∙ partition_at-below h ts s
