-- ===== src/Rows/ByName.antt =====
-- The getters by name (voltdbclient/rows.go) on a table as it comes from the server.
use voltdb_client_go.Common.{
  ℕ, suc, ◌≡◌, refl, ap, ◌∙◌, Bool, true, false, if◌then◌else◌, ℤ, pos, Option, none, some, List,
  [], ◌∷◌, no_column, err, M,
}
use voltdb_client_go.Word.{wrap, w16}
use voltdb_client_go.Table.{VoltTable, NameMap, bytes_eq, find_name, index_names}
use voltdb_client_go.Response.{VoltRows}
use voltdb_client_go.Rows.{Datum, table}
use voltdb_client_go.Rows.Names.{get_by_name, name_index, at_index}

-- The last column of a name, when the first of the list has the index `i`.
abbrev pub last_named : List ℕ → List (List ℕ) → ℕ → Option ℕ
last_named cn [] i = none
last_named cn (n ∷ ns) i = elim (last_named cn ns (suc i)) [
  | some j ↦ some j
  | none ↦ if bytes_eq n cn then some i else none
]

or_found : Option ℕ → Option ℤ → Option ℤ
or_found none o = o
or_found (some j) o = some (wrap w16 (pos j))

-- A name at index `i`, behind which the last index is known.
or_found_lem :
    (b : Bool) (i : ℕ) (later : Option ℕ) (o : Option ℤ)
    → or_found later (if b then some (wrap w16 (pos i)) else o)
      ≡ or_found (elim later [ some j ↦ some j | none ↦ if b then some i else none ]) o
unfolding or_found
or_found_lem true i none o = refl
or_found_lem false i none o = refl
or_found_lem b i (some j) o = refl

find_name-index_names :
    (cn : List ℕ) (ns : List (List ℕ)) (i : ℕ) (m : NameMap)
    → find_name cn (index_names i ns m) ≡ or_found (last_named cn ns i) (find_name cn m)
unfolding find_name index_names or_found
find_name-index_names cn [] i m = refl
find_name-index_names cn (n ∷ ns) i m =
    find_name-index_names cn ns (suc i) ((n, wrap w16 (pos i)) ∷ m)
    ∙ or_found_lem (bytes_eq n cn) i (last_named cn ns (suc i)) (find_name cn m)

-- What a getter by name is to do: ask for the last column of the name, or fail.
abbrev pub asked : (ℤ → M VoltRows Datum) → List ℕ → Option ℕ → M VoltRows Datum
asked get cn none vr = err (no_column cn) vr
asked get cn (some j) vr = get (wrap w16 (pos j)) vr

at_index-found :
    (get : ℤ → M VoltRows Datum) (cn : List ℕ) (o : Option ℕ) (vr : VoltRows)
    → at_index get cn (some (or_found o none)) vr ≡ asked get cn o vr
unfolding at_index or_found
at_index-found get cn none vr = refl
at_index-found get cn (some j) vr = refl

-- On a table whose names the client has indexed, a getter by name asks the getter by index for the
-- last column that has the name as `to_upper` spells it; without one it fails and changes nothing.
pub get_by_name-last :
    (to_upper : List ℕ → List ℕ) (get : ℤ → M VoltRows Datum) (cn : List ℕ) (vr : VoltRows)
    (t : VoltTable)
    → table vr ≡ some t
    → t.cn_to_ci ≡ index_names 0 t.column_names []
    → get_by_name to_upper get cn vr ≡ asked get cn (last_named (to_upper cn) t.column_names 0) vr
unfolding get_by_name name_index find_name
get_by_name-last to_upper get cn vr t there indexed =
    let name : List ℕ = to_upper cn in
    ap (λ o. at_index get cn (name_index name o) vr) there
    ∙ ap (λ m. at_index get cn (some (find_name name m)) vr) indexed
    ∙ ap (λ o. at_index get cn (some o) vr) (find_name-index_names name t.column_names 0 [])
    ∙ at_index-found get cn (last_named name t.column_names 0) vr
