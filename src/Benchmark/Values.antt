-- ===== src/Benchmark/Values.antt =====
-- The values that voltkv stores (examples/voltkv/payload_processor.go) under a configuration that its
-- validation accepts (examples/voltkv/kv_config.go).
use voltdb_client_go.Common.{
  ℕ, zero, suc, ◌+◌, ◌-◌, ◌%◌, ◌<◌, ◌≤◌, ltb, ◌≡◌, inl, inr, refl, ap, ◌∙◌, subst, arith, ℤ, pos,
  negsuc, ◌+ℤ◌, ◌-ℤ◌, ◌≤ℤ◌, none, some, Option-cases, List, [], ◌∷◌, ◌++◌, length, take, drop,
  replicate, All, length-append, Bool-cases,
}
use native.Mathlib.Nat.{mod-lt}
use voltdb_client_go.Word.{wrap, w64, Fits, signed-unsigned}
use voltdb_client_go.Benchmark.Config.{KvConfig, accepted, new_kv_config}
use voltdb_client_go.Benchmark.Payload.{
  PayloadProcessor, intn, entropy_byte, fill_entropy, Reader, new_benchmark, read_value, raw_value,
  value_size, size_from, as_size,
}

-- What is known of an accepted configuration.
pub record IsAccepted (kv : KvConfig) : Type 0 where
  pub keys : pos 1 ≤ℤ kv.poolsize
  pub least : pos 1 ≤ℤ kv.minvaluesize
  pub most : pos 1 ≤ℤ kv.maxvaluesize
  pub mixed : pos 1 ≤ℤ kv.entropy

pub new_kv_config-IsAccepted : (kv : KvConfig) → new_kv_config kv ≡ accepted kv → IsAccepted kv
unfolding new_kv_config
new_kv_config-IsAccepted kv e = record {
  keys = ground arith;
  least = ground arith;
  most = ground arith;
  mixed = ground arith;
}

-- A value of an int64.
wrap_self : (v : ℤ) → Fits w64 v → wrap w64 v ≡ v
wrap_self v f = signed-unsigned 9223372036854775808 v f

pub positive : (z : ℤ) → pos 1 ≤ℤ z → (n : ℕ) × (z ≡ pos (suc n))
positive (pos zero) h = absurd (omega arith)
positive (pos (suc n)) h = (n, refl)
positive (negsuc n) h = absurd (omega arith)

pub intn-some : (n draw : ℕ) → (k : ℕ) × (intn (pos (suc n)) draw ≡ some k) × (k ≤ n)
unfolding intn
intn-some n draw = (draw % suc n, refl, grind arith)

-- The argument of Intn for sizes from `a + 1` to `b + 1`.
span :
    (a b : ℕ)
    → b < 9223372036854775807
    → a ≤ b
    → wrap w64 ((pos (suc b) -ℤ pos (suc a)) +ℤ pos 1) ≡ pos (suc (b - a))
span a b g h =
    let e : (pos (suc b) -ℤ pos (suc a)) +ℤ pos 1 ≡ pos (suc (b - a)) = ground arith in
    ap (wrap w64) e ∙ wrap_self (pos (suc (b - a))) (omega arith)

no_span :
    (a b : ℕ)
    → a < 9223372036854775807
    → b < a
    → wrap w64 ((pos (suc b) -ℤ pos (suc a)) +ℤ pos 1) ≡ (pos (suc b) -ℤ pos (suc a)) +ℤ pos 1
no_span a b g h = wrap_self ((pos (suc b) -ℤ pos (suc a)) +ℤ pos 1) (ground arith)

intn-none : (a b draw : ℕ) → b < a → intn ((pos (suc b) -ℤ pos (suc a)) +ℤ pos 1) draw ≡ none
unfolding intn
intn-none a b draw h = ground arith

module _ (proc : PayloadProcessor) (a b : ℕ) (p : proc.min_value_size ≡ pos (suc a))
    (q : proc.max_value_size ≡ pos (suc b)) (f : a < 9223372036854775807)
    (g : b < 9223372036854775807) where
  size-at :
      (draw : ℕ) (n : ℤ)
      → wrap w64 ((pos (suc b) -ℤ pos (suc a)) +ℤ pos 1) ≡ n
      → value_size proc draw ≡ size_from (pos (suc a)) (intn n draw)
  unfolding value_size
  size-at draw n e =
      ap (λ (z : ℤ). size_from z (intn (wrap w64 ((proc.max_value_size -ℤ z) +ℤ pos 1)) draw)) p
      ∙ (ap
            (λ (z : ℤ).
              size_from (pos (suc a)) (intn (wrap w64 ((z -ℤ pos (suc a)) +ℤ pos 1)) draw))
            q
          ∙ ap (λ (z : ℤ). size_from (pos (suc a)) (intn z draw)) e)

  pub value_size-least :
      (draw : ℕ) → a ≤ b → (n : ℕ) × (value_size proc draw ≡ some n) × (suc a ≤ n) × (n ≤ suc b)
  unfolding value_size
  value_size-least draw h =
      let (k, e, l) = intn-some (b - a) draw in
      let w : wrap w64 (pos (suc a) +ℤ pos k) ≡ pos (suc a + k) =
        let sum : pos (suc a) +ℤ pos k ≡ pos (suc a + k) = ground arith in
        ap (wrap w64) sum ∙ wrap_self (pos (suc a + k)) (omega arith) in
      (
        suc a + k,
        size-at draw (pos (suc (b - a))) (span a b g h)
            ∙ (ap (size_from (pos (suc a))) e ∙ ap as_size w),
        omega arith,
        omega arith,
      )

  pub value_size-none : (draw : ℕ) → b < a → value_size proc draw ≡ none
  unfolding value_size
  value_size-none draw h =
      size-at draw ((pos (suc b) -ℤ pos (suc a)) +ℤ pos 1) (no_span a b f h)
      ∙ ap (size_from (pos (suc a))) (intn-none a b draw h)

length-take : {A : Type 0} (n : ℕ) (xs : List A) → length (take n xs) ≤ n
length-take zero xs = omega arith
length-take (suc n) [] = omega arith
length-take (suc n) (x ∷ xs) = omega (arith, length-take n xs)

length-replicate : {A : Type 0} (n : ℕ) (a : A) → length (replicate n a) ≡ n
length-replicate zero a = refl
length-replicate (suc n) a = ap suc (length-replicate n a)

abbrev pub IsBelow : ℕ → ℕ → Type 0
IsBelow e b = b < e

IsBelow-append :
    (e : ℕ) (xs ys : List ℕ) → All (IsBelow e) xs → All (IsBelow e) ys → All (IsBelow e) (xs ++ ys)
IsBelow-append e [] ys h k = k
IsBelow-append e (x ∷ xs) ys (l, h) k = (l, IsBelow-append e xs ys h k)

IsBelow-take : (e n : ℕ) (xs : List ℕ) → All (IsBelow e) xs → All (IsBelow e) (take n xs)
IsBelow-take e zero xs h = tt
IsBelow-take e (suc n) [] h = tt
IsBelow-take e (suc n) (x ∷ xs) (l, h) = (l, IsBelow-take e n xs h)

IsBelow-drop : (e n : ℕ) (xs : List ℕ) → All (IsBelow e) xs → All (IsBelow e) (drop n xs)
IsBelow-drop e zero xs h = h
IsBelow-drop e (suc n) [] h = tt
IsBelow-drop e (suc n) (x ∷ xs) (l, h) = IsBelow-drop e n xs h

IsBelow-zeros : (e n : ℕ) → 0 < e → All (IsBelow e) (replicate n 0)
IsBelow-zeros e zero h = tt
IsBelow-zeros e (suc n) h = (h, IsBelow-zeros e n h)

-- A value that is read: its length, its bytes, and that all entropy bytes are still there.
abbrev pub ReadsWell : ℕ → ℕ → Reader → List ℕ × Reader → Type 0
ReadsWell e n r (raw, rest) = (length raw ≡ n) × All (IsBelow e) raw × (rest.bytes ≡ r.bytes)

read_value-ReadsWell :
    (e n : ℕ) (r : Reader) → 0 < e → All (IsBelow e) r.bytes → ReadsWell e n r (read_value n r)
unfolding read_value
read_value-ReadsWell e n r h a =
    let got : List ℕ = take n (drop r.position r.bytes) in
    (
      length-append got (replicate (n - length got) 0)
          ∙ omega (
            arith,
            length-take n (drop r.position r.bytes),
            length-replicate (n - length got) (zero),
          ),
      IsBelow-append e got _ (IsBelow-take e n _ (IsBelow-drop e r.position r.bytes a))
          (IsBelow-zeros e (n - length got) h),
      refl,
    )

pub raw_value-ReadsWell :
    (e n : ℕ) (r : Reader) → 0 < e → All (IsBelow e) r.bytes → ReadsWell e n r (raw_value n r)
unfolding raw_value
raw_value-ReadsWell e n r h a = elim (Bool-cases (ltb n (length r.bytes - r.position))) [
  | inl t ↦ rw t (read_value-ReadsWell e n r h a)
  | inr t ↦ rw t (read_value-ReadsWell e n (record r { position = 0 }) h a)
]

-- What the benchmark makes its processor of.
abbrev pub processor : KvConfig → PayloadProcessor
processor kv = record {
  key_size = kv.keysize;
  min_value_size = kv.minvaluesize;
  max_value_size = kv.maxvaluesize;
  entropy = kv.entropy;
  pool_size = kv.poolsize;
  use_compression = kv.usecompression;
}

pub new_benchmark-some :
    (kv : KvConfig) (draws : List ℕ) (proc : PayloadProcessor) (r : Reader)
    → new_benchmark kv draws ≡ some (proc, r)
    → (proc ≡ processor kv) × (fill_entropy kv.entropy draws ≡ some r.bytes)
unfolding new_benchmark
new_benchmark-some kv draws proc r e = elim (Option-cases (fill_entropy kv.entropy draws)) [
  | inl z ↦ absurd (ground arith)
  | inr (bs, z) ↦ (ground arith, ground arith)
]

pub fill_entropy-IsBelow :
    (e : ℕ) (draws bs : List ℕ)
    → fill_entropy (pos (suc e)) draws ≡ some bs
    → All (IsBelow (suc e)) bs
unfolding fill_entropy entropy_byte
fill_entropy-IsBelow e [] bs h =
    (let same : [] ≡ bs = ground arith in subst (All (IsBelow (suc e))) same tt)
fill_entropy-IsBelow e (r ∷ rs) bs h = elim (Option-cases (fill_entropy (pos (suc e)) rs)) [
  | inl z ↦ absurd (ground arith)
  | inr (cs, z) ↦
      let same : ((r % 127) % suc e) ∷ cs ≡ bs = ground arith in
      subst (All (IsBelow (suc e))) same (mod-lt _ (omega arith), fill_entropy-IsBelow e rs cs z)
]
