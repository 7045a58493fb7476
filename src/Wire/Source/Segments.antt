-- ===== src/Wire/Source/Segments.antt =====
-- A message that is cut out of the segments of a connection (io.ReadFull, as wire/decoder.go uses it).
use voltdb_client_go.Common.{
  ℕ, ◌+◌, ◌-◌, ◌≡◌, ◌⊎◌, inl, inr, refl, sym, ap, ◌∙◌, arith, true, false, ltb, leb, List, [], ◌∷◌,
  ◌++◌, length, length-append, append_assoc, take, drop, take-append, drop-append, ok,
}
use voltdb_client_go.Wire.Source.{conn, read_full, remaining, skip, after}

-- `m` stands at the front of the segments and `rest` behind it. It may end inside a segment or with
-- it, and no empty segment follows it.
abbrev pub Front : List ℕ → List (List ℕ) → List (List ℕ) → Type 0
Front m [] rest = (m ≡ []) × (rest ≡ [])
Front m (c ∷ cs) rest =
    ((b : ℕ) × (q : List ℕ) × (c ≡ m ++ (b ∷ q)) × (rest ≡ (b ∷ q) ∷ cs))
    ⊎ ((n : List ℕ) × (m ≡ c ++ n) × Front n cs rest)

Front-remaining :
    (m : List ℕ) (segs rest : List (List ℕ))
    → Front m segs rest
    → remaining (conn segs) ≡ m ++ remaining (conn rest)
Front-remaining m [] rest (e, f) = rw (e, f) refl
Front-remaining m (c ∷ cs) rest (inl (b, q, e, f)) =
    rw (e, f) (append_assoc m (b ∷ q) (remaining (conn cs)))
Front-remaining m (c ∷ cs) rest (inr (n, e, f)) =
    ap (λ x. c ++ x) (Front-remaining n cs rest f)
    ∙ sym (append_assoc c n (remaining (conn rest)))
    ∙ ap (λ x. x ++ remaining (conn rest)) (sym e)

Front-skip :
    (m : List ℕ) (segs rest : List (List ℕ)) → Front m segs rest → skip (length m) segs ≡ rest
unfolding skip
Front-skip m [] rest (e, f) = sym f
Front-skip m (c ∷ cs) rest (inl (b, q, e, f)) =
    let longer : ltb (length m) (length c) ≡ true =
      ground (arith, ap length e ∙ length-append m (b ∷ q)) in
    rw longer
      (ap (λ x. drop (length m) x ∷ cs) e ∙ ap (λ x. x ∷ cs) (drop-append m (b ∷ q)) ∙ sym f)
Front-skip m (c ∷ cs) rest (inr (n, e, f)) =
    let len : length m ≡ length c + length n = ap length e ∙ length-append c n in
    let whole : ltb (length m) (length c) ≡ false = ground (arith, len) in
    let left : length m - length c ≡ length n = omega (arith, len) in
    rw (whole, left) (Front-skip n cs rest f)

-- ReadFull cuts it off.
pub read_full-Front :
    (m : List ℕ) (segs rest : List (List ℕ))
    → Front m segs rest
    → read_full (length m) (conn segs) ≡ ok m (conn rest)
unfolding read_full after
read_full-Front m segs rest h =
    let held : remaining (conn segs) ≡ m ++ remaining (conn rest) = Front-remaining m segs rest h in
    let enough : leb (length m) (length (remaining (conn segs))) ≡ true =
      ground (arith, ap length held ∙ length-append m (remaining (conn rest))) in
    rw enough (
      ap (λ x. ok x (conn (skip (length m) segs)))
        (ap (take (length m)) held ∙ take-append m (remaining (conn rest)))
      ∙ ap (λ x. ok m (conn x)) (Front-skip m segs rest h))
