-- ===== src/Response/Loops.antt =====
-- Reading a list of items from a message, as the loops of voltdbclient/response.go do.
use voltdb_client_go.Common.{
  ℕ, ◌<◌, ◌^◌, ◌≡◌, refl, ap, ◌∙◌, arith, ℤ, pos, List, [], ◌∷◌, ◌++◌, length, All, ok, M, ◌>>=◌,
  pure, map,
}
use voltdb_client_go.Word.{unsigned, put_uint, w16}
use voltdb_client_go.Wire.Source.{Source}
use voltdb_client_go.Wire.Decoder
use voltdb_client_go.Wire.Decoder.Reads.{Reads, Reads-seq, Reads-int16}
use voltdb_client_go.Response.{repeat, fill}

abbrev pub concat : List (List ℕ) → List ℕ
concat [] = []
concat (b ∷ bs) = b ++ concat bs

pub Reads-pure : {A : Type 0} (a : A) → Reads (pure a) [] a
Reads-pure a s rest q = ap (ok a) q

-- The last step of a chain computes its value.
pub Reads-last :
    {A B : Type 0} (m : M Source A) (f : A → B) (bs : List ℕ) (a : A)
    → Reads m bs a
    → Reads (m >>= λ x. pure (f x)) bs (f a)
Reads-last m f bs a r s rest q = rw (r s rest q)

-- A loop reads one item after the other.
module _ {X A : Type 0} (m : M Source A) (form : X → List ℕ) (value : X → A) where
  pub Reads-repeat :
      (xs : List X)
      → All (λ x. Reads m (form x) (value x)) xs
      → Reads (repeat (length xs) m) (concat (map form xs)) (map value xs)
  unfolding repeat
  Reads-repeat [] h = Reads-pure []
  Reads-repeat (x ∷ xs) (h, hs) =
      Reads-seq m (λ y. repeat (length xs) m >>= λ ys. pure (y ∷ ys)) (form x)
        (concat (map form xs)) (value x) (map value (x ∷ xs)) h
        (Reads-last (repeat (length xs) m) (◌∷◌ (value x)) (concat (map form xs)) (map value xs)
          (Reads-repeat xs hs))

  pub Reads-fill :
      (size : ℤ) (xs : List X)
      → size ≡ pos (length xs)
      → All (λ x. Reads m (form x) (value x)) xs
      → Reads (fill size m) (concat (map form xs)) (map value xs)
  unfolding fill
  Reads-fill size xs e h s rest q = ap (λ z. fill z m s) e ∙ Reads-repeat xs h s rest q

map_id : {A : Type 0} (xs : List A) → map (λ x. x) xs ≡ xs
map_id [] = refl
map_id (x ∷ xs) = ap (◌∷◌ x) (map_id xs)

pub Reads-fill_self :
    {A : Type 0} (m : M Source A) (form : A → List ℕ) (size : ℤ) (xs : List A)
    → size ≡ pos (length xs)
    → All (λ x. Reads m (form x) x) xs
    → Reads (fill size m) (concat (map form xs)) xs
Reads-fill_self m form size xs e h = rw (map_id xs) at (Reads-fill m form (λ x. x) size xs e h)

pub Reads-count : (n : ℕ) → n < 2 ^ 15 → Reads Decoder.int16 (put_uint 2 n) (pos n)
Reads-count n h = let e : unsigned w16 (pos n) ≡ n = omega arith in rw e at (Reads-int16 (pos n) h)
