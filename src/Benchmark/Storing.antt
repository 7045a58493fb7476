-- ===== src/Benchmark/Storing.antt =====
-- Each value that voltkv stores (examples/voltkv/payload_processor.go).
use voltdb_client_go.Common.{
  ℕ, ◌<◌, ltb, ◌≡◌, ◌⊎◌, inl, inr, refl, sym, ap, ◌∙◌, subst, arith, if◌then◌else◌, Bool, true,
  false, ℤ, pos, ◌≤ℤ◌, ltb_ℤ, none, some, pos_part, List, length, All, Bool-cases,
}
use voltdb_client_go.Benchmark.Config.{KvConfig, accepted, new_kv_config}
use voltdb_client_go.Benchmark.Payload.{
  PayloadProcessor, intn, fill_entropy, Reader, new_benchmark, raw_value, value_size, generated,
  Stored, stored, generate_random_key_for_retrieval, generate_for_store, retrieve_from_store,
}
use mathlib.Core.Option
use voltdb_client_go.Benchmark.Values.{
  IsAccepted, new_kv_config-IsAccepted, positive, intn-some, value_size-least, value_size-none,
  IsBelow, ReadsWell, raw_value-ReadsWell, processor, new_benchmark-some, fill_entropy-IsBelow,
}

module _ (sprintf : ℤ → ℕ → List ℕ) (to_gzip from_gzip : List ℕ → List ℕ) where
  -- A value that is stored: its size, its bytes, and what a client reads back.
  pub record IsValue (kv : KvConfig) (r : Reader) (v : Stored) : Type 0 where
    pub long : kv.minvaluesize ≤ℤ pos (length v.raw)
    pub short : pos (length v.raw) ≤ℤ kv.maxvaluesize
    pub mixed : All (λ b. b < pos_part kv.entropy) v.raw
    pub kept : v.rest.bytes ≡ r.bytes
    pub back : retrieve_from_store from_gzip (processor kv) v.store ≡ (v.raw, v.store)

  -- The bytes in the store, and what is read from them.
  abbrev packed : Bool → List ℕ → List ℕ
  packed c x = if c then to_gzip x else x

  abbrev unpacked : Bool → List ℕ → List ℕ × List ℕ
  unpacked c y = if c then (from_gzip y, y) else (y, y)

  gunzipped :
      (c : Bool) (x : List ℕ)
      → ((b : List ℕ) → from_gzip (to_gzip b) ≡ b)
      → unpacked c (packed c x) ≡ (x, packed c x)
  gunzipped true x gunzip = ap (λ y. (y, to_gzip x)) (gunzip x)
  gunzipped false x gunzip = refl

  stored-back :
      (proc : PayloadProcessor) (key : List ℕ) (x : List ℕ × Reader)
      → ((b : List ℕ) → from_gzip (to_gzip b) ≡ b)
      → let v = stored sprintf to_gzip proc key x in
        retrieve_from_store from_gzip proc v.store ≡ (v.raw, v.store)
  unfolding stored retrieve_from_store
  stored-back proc key x gunzip = gunzipped proc.use_compression x.0 gunzip

  key-some :
      (kv : KvConfig) (draw : ℕ)
      → pos 1 ≤ℤ kv.poolsize
      → (key : List ℕ) × (generate_random_key_for_retrieval sprintf (processor kv) draw ≡ some key)
  unfolding generate_random_key_for_retrieval
  key-some kv draw h =
      let (n, e) = positive kv.poolsize h in
      let (k, f, _) = intn-some n draw in
      (
        sprintf kv.keysize k,
        ap (λ z. Option.map (sprintf kv.keysize) (intn z draw)) e
            ∙ ap (Option.map (sprintf kv.keysize)) f,
      )

  stored-IsValue :
      (kv : KvConfig) (key : List ℕ) (n : ℕ) (r : Reader)
      → ((b : List ℕ) → from_gzip (to_gzip b) ≡ b)
      → kv.minvaluesize ≤ℤ pos n
      → pos n ≤ℤ kv.maxvaluesize
      → ReadsWell (pos_part kv.entropy) n r (raw_value n r)
      → IsValue kv r (stored sprintf to_gzip (processor kv) key (raw_value n r))
  unfolding stored
  stored-IsValue kv key n r gunzip l m (long, below, kept) = record {
    long = subst (λ k. kv.minvaluesize ≤ℤ pos k) (sym long) l;
    short = subst (λ k. pos k ≤ℤ kv.maxvaluesize) (sym long) m;
    mixed = below;
    kept = kept;
    back = unfold stored in stored-back (processor kv) key (raw_value n r) gunzip;
  }

  generated-cases :
      (kv : KvConfig) (kd sd : ℕ) (r : Reader)
      → ((b : List ℕ) → from_gzip (to_gzip b) ≡ b)
      → IsAccepted kv
      → kv.minvaluesize ≤ℤ pos 9223372036854775807
      → kv.maxvaluesize ≤ℤ pos 9223372036854775807
      → All (IsBelow (pos_part kv.entropy)) r.bytes
      → ((ltb_ℤ kv.maxvaluesize kv.minvaluesize ≡ true)
          × (generate_for_store sprintf to_gzip (processor kv) kd sd r ≡ none))
        ⊎ ((v : Stored) × (generate_for_store sprintf to_gzip (processor kv) kd sd r ≡ some v)
            × IsValue kv r v)
  unfolding generate_for_store generated
  generated-cases kv kd sd r gunzip ok f g below =
      let (a, p) = positive kv.minvaluesize ok.least in
      let (b, q) = positive kv.maxvaluesize ok.most in
      let (key, e) = key-some kv kd ok.keys in
      let f' : a < 9223372036854775807 = ground arith in
      let g' : b < 9223372036854775807 = ground arith in
      elim (Bool-cases (ltb b a)) [
        | inl less ↦ inl (
          ground arith,
          ap (λ k. generated sprintf to_gzip (processor kv) k (value_size (processor kv) sd) r) e
              ∙ ap (λ n. generated sprintf to_gzip (processor kv) (some key) n r)
                  (value_size-none (processor kv) a b p q f' g' sd (ground arith)),
        )
        | inr enough ↦ inr (
            let (n, s, lo, hi) = value_size-least (processor kv) a b p q f' g' sd (ground arith) in
            (
              stored sprintf to_gzip (processor kv) key (raw_value n r),
              ap (λ k. generated sprintf to_gzip (processor kv) k (value_size (processor kv) sd) r)
                    e
                  ∙ ap (λ m. generated sprintf to_gzip (processor kv) (some key) m r) s,
              stored-IsValue kv key n r gunzip (ground arith) (ground arith)
                  (raw_value-ReadsWell (pos_part kv.entropy) n r (omega (arith, ok.mixed)) below),
            ))
      ]

  entropy-IsBelow :
      (kv : KvConfig) (draws bs : List ℕ)
      → pos 1 ≤ℤ kv.entropy
      → fill_entropy kv.entropy draws ≡ some bs
      → All (IsBelow (pos_part kv.entropy)) bs
  entropy-IsBelow kv draws bs h e =
      let (n, p) = positive kv.entropy h in
      subst (λ z. All (IsBelow (pos_part z)) bs) (sym p)
        (fill_entropy-IsBelow n draws bs (ap (λ z. fill_entropy z draws) (sym p) ∙ e))

  -- Under a configuration that the validation accepts, with sizes within int64 and once the processor
  -- is made, let a value be asked for, wherever the reader of the entropy bytes stands. If the
  -- greatest size is below the least, which the validation lets pass, the process panics. Otherwise
  -- the value has a size between the two, its bytes are below the entropy, what is stored comes back
  -- as the value if gzip can be undone, and the entropy bytes stay as they are.
  pub generate_for_store-IsValue :
      (kv : KvConfig) (draws : List ℕ) (proc : PayloadProcessor) (filled r : Reader)
      (key_draw size_draw : ℕ)
      → ((b : List ℕ) → from_gzip (to_gzip b) ≡ b)
      → new_kv_config kv ≡ accepted kv
      → kv.minvaluesize ≤ℤ pos 9223372036854775807
      → kv.maxvaluesize ≤ℤ pos 9223372036854775807
      → new_benchmark kv draws ≡ some (proc, filled)
      → r.bytes ≡ filled.bytes
      → ((ltb_ℤ kv.maxvaluesize kv.minvaluesize ≡ true)
          × (generate_for_store sprintf to_gzip proc key_draw size_draw r ≡ none))
        ⊎ ((v : Stored) × (generate_for_store sprintf to_gzip proc key_draw size_draw r ≡ some v)
            × IsValue kv r v)
  generate_for_store-IsValue kv draws proc filled r kd sd gunzip e f g made same =
      let ok = new_kv_config-IsAccepted kv e in
      let (known, bytes) = new_benchmark-some kv draws proc filled made in
      let below : All (IsBelow (pos_part kv.entropy)) r.bytes =
        subst (All (IsBelow (pos_part kv.entropy))) (sym same)
          (entropy-IsBelow kv draws filled.bytes ok.mixed bytes) in
      subst
        (λ (p : PayloadProcessor).
          ((ltb_ℤ kv.maxvaluesize kv.minvaluesize ≡ true)
            × (generate_for_store sprintf to_gzip p kd sd r ≡ none))
          ⊎ ((v : Stored) × (generate_for_store sprintf to_gzip p kd sd r ≡ some v)
              × IsValue kv r v))
        (sym known) (generated-cases kv kd sd r gunzip ok f g below)
