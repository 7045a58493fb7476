-- ===== src/Node/Handshake.antt =====
-- A login that the server accepts (networkConnect of voltdbclient/node_conn.go), from the url to
-- what the connection knows of the server.
use voltdb_client_go.Common.{
  ℕ, ◌≡◌, refl, sym, ap, ◌∙◌, ℤ, pos, Option, none, some, List, [], ◌∷◌, ◌++◌, length, ok, Outcome,
}
use voltdb_client_go.Word.{put_uint}
use voltdb_client_go.Table.{bytes_eq}
use voltdb_client_go.Wire.Encoder
use voltdb_client_go.Wire.Encoder.{message, new_encoder}
use voltdb_client_go.Wire.Encoder.Login.{login_format, login-format}
use voltdb_client_go.Wire.Source.{Source, conn, push_back}
use voltdb_client_go.Wire.Source.Segments.{Front}
use voltdb_client_go.Wire.Decoder
use voltdb_client_go.Wire.Decoder.Login.{
  Greeting, IsGreeting, greeting_format, info_of, login-greeting,
}
use voltdb_client_go.Url.{Url, Userinfo, voltdb, default_port, parse_url, with_host, with_user}
use voltdb_client_go.Url.Ports.{Lacks, get_port-none}
use voltdb_client_go.Node.Connect.{
  Connection, connected, Peer, greeted, written, serialized, username, password, dialed, resolved,
  parsed, network_connect,
}
mod Tests

abbrev pub url_of : List ℕ → Userinfo → List ℕ → Url
url_of opaque i name = record { scheme = voltdb; opaque = opaque; user = some i; host = name }

with_host-default :
    (opaque name : List ℕ) (i : Userinfo)
    → Lacks b':' name
    → with_host (with_user (url_of opaque i name)) ≡ url_of opaque i (name ++ (b':' ∷ default_port))
unfolding with_host with_user bytes_eq
with_host-default opaque name i h = rw (get_port-none name h) refl

-- A url of the scheme voltdb with a user and a host in which there is no colon, so neither a port nor
-- an IPv6 address, is dialed at port 21212. When the server takes the
-- login message of that user and answers with its data, the length of the answer whole in one
-- segment, the connection is made and knows these data; what the server sends next is still there.
pub network_connect-accepted :
    (sha1 sha256 : List ℕ → List ℕ) {A : Type 0} (parse : List ℕ → Option Url)
    (resolve : List ℕ → Option A) (dial : A → Option Peer) (version : ℤ) (src opaque name : List ℕ)
    (i : Userinfo) (a : A) (peer : Peer) (g : Greeting) (p : List ℕ) (cs rest : List (List ℕ))
    → parse src ≡ some (url_of opaque i name)
    → Lacks b':' name
    → resolve (name ++ (b':' ∷ default_port)) ≡ some a
    → dial a ≡ some peer
    → peer (message (login_format sha1 sha256 version i.username i.password))
      ≡ some (conn ((put_uint 4 (length (greeting_format (pos 0) g)) ++ p) ∷ cs))
    → IsGreeting g
    → Front (greeting_format (pos 0) g) (push_back p cs) rest
    → network_connect sha1 sha256 parse resolve dial version src ≡ connected (conn rest) (info_of g)
unfolding network_connect parse_url parsed resolved dialed serialized written greeted username
    password
network_connect-accepted sha1 sha256 parse resolve dial version src opaque name i a peer g p cs rest
      url plain address line answer v front =
    let host : List ℕ = name ++ (b':' ∷ default_port) in
    let whole : Url = url_of opaque i host in
    let (e, bytes) = login-format sha1 sha256 version i.username i.password in
    ap
      (λ o.
        parsed sha1 sha256 parse resolve dial version
          (elim o [ none ↦ none | some u ↦ some (with_host (with_user u)) ]))
      url
    ∙ ap (λ u. parsed sha1 sha256 parse resolve dial version (some u))
        (with_host-default opaque name i plain)
    ∙ ap (resolved sha1 sha256 parse resolve dial version whole) address
    ∙ ap (dialed sha1 sha256 version whole) line
    ∙ ap (serialized peer) bytes
    ∙ ap written answer
    ∙ ap greeted (login-greeting g p cs rest v front)
