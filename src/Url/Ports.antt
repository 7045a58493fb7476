-- ===== src/Url/Ports.antt =====
-- The port of a host (voltdbclient/url.go).
use voltdb_client_go.Common.{
  ℕ, ◌==◌, ◌≡◌, refl, sym, ap, ◌∙◌, true, false, none, some, List, [], ◌∷◌, ◌++◌, drop, drop-append,
  length, length-append, append_assoc, All,
}
use voltdb_client_go.Url.{index_byte, index_pair, bracketed_port, port_behind, get_port}

-- A byte that does not occur.
abbrev pub Lacks : ℕ → List ℕ → Type 0
Lacks c = All (λ b. b == c ≡ false)

index_byte-lacking : (c : ℕ) (bs : List ℕ) → Lacks c bs → index_byte c bs ≡ none
unfolding index_byte
index_byte-lacking c [] h = refl
index_byte-lacking c (b ∷ bs) (n, h) = rw (n, index_byte-lacking c bs h) refl

index_byte-behind :
    (c : ℕ) (bs cs : List ℕ)
    → c == c ≡ true
    → Lacks c bs
    → index_byte c (bs ++ (c ∷ cs)) ≡ some (length bs)
unfolding index_byte
index_byte-behind c [] cs same h = rw same refl
index_byte-behind c (b ∷ bs) cs same (n, h) = rw (n, index_byte-behind c bs cs same h) refl

Lacks-append : (c : ℕ) (bs cs : List ℕ) → Lacks c bs → Lacks c cs → Lacks c (bs ++ cs)
Lacks-append c [] cs h k = k
Lacks-append c (b ∷ bs) cs (n, h) k = (n, Lacks-append c bs cs h k)

index_pair-lacking : (c d : ℕ) (bs : List ℕ) → Lacks c bs → index_pair c d bs ≡ none
unfolding index_pair
index_pair-lacking c d [] h = refl
index_pair-lacking c d (b ∷ []) h = refl
index_pair-lacking c d (b ∷ e ∷ bs) (n, h) = rw (n, index_pair-lacking c d (e ∷ bs) h) refl

-- A host without a colon has no port.
pub get_port-none : (name : List ℕ) → Lacks b':' name → get_port name ≡ []
unfolding get_port port_behind
get_port-none name h = rw (index_byte-lacking b':' name h) refl

-- A name without brackets and colons, and what stands behind the colon, is the port.
pub get_port-some :
    (name port : List ℕ)
    → Lacks b':' name
    → Lacks b']' name
    → Lacks b']' port
    → get_port (name ++ (b':' ∷ port)) ≡ port
unfolding get_port port_behind bracketed_port
get_port-some name port h k l =
    let host : List ℕ = name ++ (b':' ∷ port) in
    let open_ : Lacks b']' host = Lacks-append b']' name (b':' ∷ port) k (refl, l) in
    rw (index_byte-behind b':' name port refl h) (
      rw (index_pair-lacking b']' b':' host open_) (
        rw (index_byte-lacking b']' host open_) (
          ap (λ n. drop n host) (sym (length-append name (b':' ∷ [])))
          ∙ ap (drop (length (name ++ (b':' ∷ [])))) (sym (append_assoc name (b':' ∷ []) port))
          ∙ drop-append (name ++ (b':' ∷ [])) port)))
