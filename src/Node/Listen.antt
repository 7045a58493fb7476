-- ===== src/Node/Listen.antt =====
-- The goroutine `listen` (voltdbclient/node_conn.go), which takes messages off the connection and
-- hands them to `loop`. Its endless loop runs on fuel, the number of rounds that are looked at.
use voltdb_client_go.Common.{
  ℕ, zero, suc, ◌+◌, ◌<◌, ◌^◌, ◌≡◌, ap, ◌∙◌, arith, ℤ, List, [], ◌∷◌, ◌++◌, length, take, drop, map,
  All, Outcome, ok, err, panic, ◌/◌, ◌%◌,
}
use voltdb_client_go.Word.{put_uint}
use voltdb_client_go.Wire.Source.{Source, buffer, conn, remaining, push_back}
use voltdb_client_go.Wire.Source.Segments.{Front}
use voltdb_client_go.Wire.Decoder
use voltdb_client_go.Wire.Decoder.Framing.{
  message-Front, message-zero, message_closed, byte_empty, byte_versioned,
}

-- What has become of the goroutine, with the buffers that it has handed to `loop`, the first one
-- first. It still reads, it has returned, or a panic has ended the process.
pub data Listener : Type 0 where
  listening returned : List (List ℕ) → Listener
  crashed : Listener

-- `responseCh <- buf`, before what comes later.
unfoldable pub hand_on : List ℕ → Listener → Listener
hand_on b (listening bs) = listening (b ∷ bs)
hand_on b (returned bs) = returned (b ∷ bs)
hand_on b crashed = crashed

-- `_, err = s.Byte()` on the buffer of a message.
unfoldable pub handed : Outcome Source ℤ → Listener → Listener
unfolding hand_on
handed (ok version s) l = hand_on (remaining s) l
handed (err e s) l = returned []
handed panic l = crashed

-- The rest of a round, behind `b, err := d.Message()`.
unfoldable pub received : (Source → Listener) → Outcome Source (List ℕ) → Listener
unfolding handed
received k (ok b s) = handed (Decoder.byte (buffer b)) (k s)
received k (err e s) = returned []
received k panic = crashed

unfoldable pub listen : ℕ → Source → Listener
unfolding received
listen zero s = listening []
listen (suc n) s = received (listen n) (Decoder.message s)

-- The messages arrive in these segments: the length of each stands whole in one segment; where else
-- the segments are cut does not matter.
abbrev pub Arrive : List (List ℕ) → List (List ℕ) → Type 0
Arrive [] segs = segs ≡ []
Arrive (m ∷ ms) segs =
    (p : List ℕ) × (cs rest : List (List ℕ)) × (segs ≡ (put_uint 4 (length m) ++ p) ∷ cs)
    × Front m (push_back p cs) rest
    × Arrive ms rest

-- A version byte and a payload.
abbrev pub versioned : List ℕ → List ℕ
versioned payload = 0 ∷ payload

-- When the server closes the connection behind whole messages, and no segment ends within a length,
-- `listen` hands every message on, in order, and returns: the version byte is gone, the payload is
-- left as it was sent. The messages are shorter than 2 ^ 31 bytes.
pub listen-messages :
    (payloads segs : List (List ℕ)) (n : ℕ)
    → Arrive (map versioned payloads) segs
    → All (λ p. length p + 1 < 2 ^ 31) payloads
    → length payloads < n
    → listen n (conn segs) ≡ returned payloads
unfolding listen received handed hand_on
listen-messages payloads segs zero arrive small enough = absurd (omega arith)
listen-messages [] segs (suc n) arrive small enough =
    ap (λ x. received (listen n) (Decoder.message (conn x))) arrive
    ∙ ap (received (listen n)) message_closed
listen-messages (p ∷ ps) segs (suc n) (q, cs, rest, e, front, arrive) (small, smaller) enough =
    ap (λ x. received (listen n) (Decoder.message (conn x))) e
    ∙ ap (received (listen n)) (message-Front (versioned p) q cs rest (omega arith) front)
    ∙ ap (λ o. handed o (listen n (conn rest))) (byte_versioned p)
    ∙ ap (hand_on p) (listen-messages ps rest n arrive smaller (omega arith))

abbrev pub frame : List ℕ → List ℕ
frame payload = put_uint 4 (length payload + 1) ++ versioned payload

-- When a segment ends within the length of a message, after two of its bytes, `listen` takes the
-- length to be 0 and returns: this message, of less than 2 ^ 16 bytes, and all that follow are lost.
pub listen-split :
    (payload : List ℕ) (segs : List (List ℕ)) (n : ℕ)
    → length payload + 1 < 2 ^ 16
    → listen (suc n) (conn (take 2 (frame payload) ∷ drop 2 (frame payload) ∷ segs)) ≡ returned []
unfolding listen received handed
listen-split payload segs n small =
    let first : (length payload + 1) / 16777216 % 256 ≡ 0 = omega arith in
    let second : (length payload + 1) / 65536 % 256 ≡ 0 = omega arith in
    rw (first, second)
      (ap (received (listen n)) (message-zero _ (drop 3 (frame payload)) segs)
        ∙ ap (λ o. handed o (listen n (conn (drop 2 (frame payload) ∷ segs)))) byte_empty)
