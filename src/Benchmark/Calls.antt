-- ===== src/Benchmark/Calls.antt =====
-- What the simulated calls of voter are (examples/voter/phonecall_generator.go).
use voltdb_client_go.Common.{
  ℕ, suc, ◌+◌, ◌*◌, ◌/◌, ◌%◌, ◌≤◌, ◌<◌, ◌==◌, ◌≡◌, ◌⊎◌, inl, inr, refl, ap, sym, ◌∙◌, arith, false,
  ltb, leb, ℤ, pos, some, List, [], ◌∷◌, length, get_elem?, get_elem?-in, All, Bool-cases, subst,
}
use native.Mathlib.Nat.{mod-lt}
use voltdb_client_go.Word.{w32, wrap}
use voltdb_client_go.Benchmark.Payload.{intn}
use voltdb_client_go.Benchmark.PhoneCalls.{
  area_code, PhoneCallGenerator, sine_entry, map_entry, prepend_entry, CallDraws, pick, falsify,
  build, receive, receive_from, fill_map, new_phone_call_generator,
}

-- A number from 0 up to that of the last contestant.
abbrev IsUpTo : ℕ → ℤ → Type 0
IsUpTo n v = (k : ℕ) × (v ≡ pos k) × (k ≤ n)

abbrev IsIn : List ℕ → ℕ → Type 0
IsIn cs c = (i : ℕ) × (get_elem? cs i ≡ some c)

pub record IsCall (n : ℕ) (c : ℤ) (phone : ℕ) : Type 0 where
  pub contestant : (c ≡ pos 999) ⊎ IsUpTo n c
  pub area : IsIn area_code (phone / 10000000)

wrap_small : (k : ℕ) → k < 2147483648 → wrap w32 (pos k) ≡ pos k
wrap_small k h = ground arith

some_code : 0 < length area_code
unfolding area_code
some_code = omega arith

get_elem?-All :
    {A : Type 0} (P : A → Type 0) (xs : List A) (i : ℕ) (v : A)
    → All P xs
    → get_elem? xs i ≡ some v
    → P v
get_elem?-All P [] i v a e = cc
get_elem?-All P (x ∷ xs) ℕ.zero v (p, ps) e = (let same : x ≡ v = cc in subst P same p)
get_elem?-All P (x ∷ xs) (suc i) v (p, ps) e = get_elem?-All P xs i v ps e

module _ (n : ℕ) (h : n < 2147483647) where
  sine_entry-small : (product : ℕ) → sine_entry (pos (suc n)) product ≡ some (pos (product % suc n))
  unfolding sine_entry
  sine_entry-small product =
      let e : suc n % w32 ≡ suc n = omega arith in
      let zero_no : (suc n == 0) ≡ false = ground arith in
      rw (e, zero_no)
        (ap some
          (wrap_small (product % suc n) (omega (arith, mod-lt product {m = suc n} (omega arith)))))

  map_entry-IsUpTo :
      (product draw : ℕ)
      → (v : ℤ) × (map_entry (pos (suc n)) product draw ≡ some v) × IsUpTo (suc n) v
  unfolding map_entry
  map_entry-IsUpTo product draw = elim (Bool-cases (leb 30 (draw % 100))) [
    | inl e ↦ (
      pos (product % suc n),
      rw e (sine_entry-small product),
      (product % suc n, refl, grind arith),
    )
    | inr e ↦ (pos 1, rw e, (1, refl, omega arith))
  ]

  pick-IsUpTo :
      (d : CallDraws) (v : ℤ)
      → IsUpTo (suc n) v
      → (w : ℤ) × (pick (pos (suc n)) d v ≡ some w) × IsUpTo (suc n) w
  unfolding pick intn
  pick-IsUpTo d v u =
      let k : ℕ = d.contestant % suc n in
      let low : k ≤ n = grind arith in
      elim (Bool-cases (ltb 0 (d.coin % 2))) [
        | inl e ↦ (
          pos (k + 1),
          rw e (ap some (wrap_small (k + 1) (omega (arith, low)))),
          (k + 1, refl, omega (arith, low)),
        )
        | inr e ↦ (v, rw e, u)
      ]

  module _ (sine_product : ℕ → ℤ → ℕ) (draws : ℕ → ℕ) where
    fill_map-IsUpTo :
        (i : ℕ) (cs : List ℕ)
        → (m : List ℤ) × (fill_map sine_product (pos (suc n)) draws i cs ≡ some m)
          × (length m ≡ length cs)
          × All (IsUpTo (suc n)) m
    unfolding fill_map prepend_entry
    fill_map-IsUpTo i [] = ([], refl, refl, tt)
    fill_map-IsUpTo i (c ∷ cs) =
        let (v, e, u) = map_entry-IsUpTo (sine_product i (pos (suc n))) (draws i) in
        let (m, f, l, us) = fill_map-IsUpTo (suc i) cs in (v ∷ m, rw (e, f), ap suc l, (u, us))

  falsify-IsUpTo :
      (d : CallDraws) (c : ℤ)
      → IsUpTo (suc n) c
      → (falsify d c ≡ pos 999) ⊎ IsUpTo (suc n) (falsify d c)
  unfolding falsify
  falsify-IsUpTo d c u = elim (Bool-cases (d.fraud % 100 == 0)) [
    | inl e ↦ inl (rw e)
    | inr e ↦ inr (rw e u)
  ]

  -- A voter's call of a generator whose map is as long as the area codes.
  receive-IsCall :
      (pcg : PhoneCallGenerator) (d : CallDraws)
      → pcg.contestant_count ≡ pos (suc n)
      → length pcg.voting_map ≡ length area_code
      → All (IsUpTo (suc n)) pcg.voting_map
      → (c : ℤ) × (phone : ℕ) × (receive pcg d ≡ some (c, phone)) × IsCall (suc n) c phone
  unfolding receive receive_from build
  receive-IsCall pcg d count long us =
      let i : ℕ = d.area % length area_code in
      let inside : suc i ≤ length area_code = mod-lt d.area {m = length area_code} some_code in
      let (mapped, at) = get_elem?-in pcg.voting_map i (subst (λ l. suc i ≤ l) (sym long) inside) in
      let (code, here) = get_elem?-in area_code i inside in
      let (c, picked, u) =
        pick-IsUpTo d mapped (get_elem?-All (IsUpTo (suc n)) pcg.voting_map i mapped us at) in
      (
        falsify d c,
        code * 10000000 + d.number % 10000000,
        rw (at, here, count, picked),
        record { contestant = falsify-IsUpTo d c u; area = (i, here ∙ ap some (omega arith)) },
      )

-- With from 1 to 2147483647 contestants, a simulated call of voter always comes: the number of its
-- contestant is 999 or one from 0 to the count of the contestants, and its phone number begins with
-- one of the area codes.
pub new_phone_call_generator-IsCall :
    (sine_product : ℕ → ℤ → ℕ) (n : ℕ) (draws : ℕ → ℕ)
    → n < 2147483647
    → (pcg : PhoneCallGenerator) × (new_phone_call_generator sine_product (pos (suc n)) draws
        ≡ some pcg)
      × ((d : CallDraws)
          → (c : ℤ) × (phone : ℕ) × (receive pcg d ≡ some (c, phone)) × IsCall (suc n) c phone)
unfolding new_phone_call_generator
new_phone_call_generator-IsCall sine_product n draws h =
    let (m, made, long, us) = fill_map-IsUpTo n h sine_product draws 0 area_code in
    let pcg : PhoneCallGenerator = record {
      contestant_count = wrap w32 (pos (suc n));
      voting_map = m;
    } in
    (pcg, rw made, λ d. receive-IsCall n h pcg d (wrap_small (suc n) (omega arith)) long us)
