-- ===== src/Url.antt =====
-- Connection urls (voltdbclient/url.go). `parse` is url.Parse; a port is looked for as the standard
-- library does, with strings.IndexByte, strings.Index and strings.Contains.
use voltdb_client_go.Common.{
  ℕ, suc, ◌+◌, ◌==◌, ◌≡◌, refl, sym, ap, ◌∙◌, arith, if◌then◌else◌, Bool, true, false, not, ◌&&◌,
  Option, none, some, List, [], ◌∷◌, ◌++◌, drop,
}
use voltdb_client_go.Table.{bytes_eq}
pub mod Ports

pub record Userinfo : Type 0 where
  pub username : List ℕ
  pub password : List ℕ

pub record Url : Type 0 where
  pub scheme : List ℕ
  pub opaque : List ℕ
  pub user : Option Userinfo
  pub host : List ℕ

-- strings.IndexByte
unfoldable pub index_byte : ℕ → List ℕ → Option ℕ
index_byte c [] = none
index_byte c (b ∷ bs) =
    let rest = index_byte c bs in
    if b == c then some 0 else elim rest [ none ↦ none | some i ↦ some (suc i) ]

-- strings.Index of two bytes
unfoldable pub index_pair : ℕ → ℕ → List ℕ → Option ℕ
index_pair c d [] = none
index_pair c d (b ∷ []) = none
index_pair c d (b ∷ e ∷ bs) =
    let rest = index_pair c d (e ∷ bs) in
    if b == c && e == d then some 0 else elim rest [ none ↦ none | some i ↦ some (suc i) ]

-- A bracket closes an IPv6 address: the port stands behind "]:".
unfoldable pub bracketed_port : List ℕ → ℕ → Option ℕ → Option ℕ → List ℕ
bracketed_port host index (some i) bracket = drop (i + 2) host
bracketed_port host index none (some j) = []
bracketed_port host index none none = drop (index + 1) host

unfoldable pub port_behind : List ℕ → Option ℕ → List ℕ
unfolding bracketed_port index_pair index_byte
port_behind host none = []
port_behind host (some index) =
    bracketed_port host index (index_pair b']' b':' host) (index_byte b']' host)

unfoldable pub get_port : List ℕ → List ℕ
unfolding port_behind index_byte
get_port host = port_behind host (index_byte b':' host)

-- "voltdb" and "21212"
abbrev pub voltdb : List ℕ
voltdb = b'v' ∷ b'o' ∷ b'l' ∷ b't' ∷ b'd' ∷ b'b' ∷ []

abbrev pub default_port : List ℕ
default_port = b'2' ∷ b'1' ∷ b'2' ∷ b'1' ∷ b'2' ∷ []

unfoldable pub with_user : Url → Url
with_user u = elim u.user [
  | none ↦ record u { user = some (record { username = []; password = [] }) }
  | some _ ↦ u
]

unfoldable pub with_host : Url → Url
unfolding get_port bytes_eq
with_host u =
    if not (bytes_eq u.scheme voltdb)
    then if bytes_eq u.host []
      then if not (bytes_eq u.opaque [])
        then record u { host = u.scheme ++ b':' ∷ u.opaque }
        else record u { host = u.scheme ++ b':' ∷ default_port }
      else u
    else if bytes_eq (get_port u.host) []
    then record u { host = u.host ++ b':' ∷ default_port }
    else u

module _ (parse : List ℕ → Option Url) where
  unfoldable pub parse_url : List ℕ → Option Url
  unfolding with_user with_host
  parse_url src = elim (parse src) [ none ↦ none | some u ↦ some (with_host (with_user u)) ]
