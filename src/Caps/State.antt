-- ===== src/Caps/State.antt =====
-- pan-cap/src/state.rs: `cap.state`, a table of values that a file may hold too. A call changes the table
-- under a lock and writes the file when the lock is free again, so that other calls may come between. A
-- poisoned lock is not modelled; the keys of the map are listed in their order.
pub mod Laws
use Prim.Native.Nat.{Ordering}
use Prim.Native.String.{compare}
use pan.Prelude.{
  Bool, true, false, String, List, [], ◌∷◌, Option, none, some, Result, ok, err, map_err, and_then,
  ok_or, bind, unwrap_or, if◌then◌else◌, str_eq, split_once, ◌⧺◌,
}
use pan.Json.{Value, null, boolean, text, array, object, Items, nil, cons, end, field, get, as_str}
use pan.Table.{Table, lookup, insert, remove, keys}

-- `path` is there if the table is kept in a file.
pub record StateCaps : Type 0 where
  pub store : Table Value
  pub path : Option String

-- The table, and the content of the file at its path.
pub record Disk : Type 0 where
  pub caps : StateCaps
  pub file : Option String

-- `from_str` and `to_string_pretty` of serde_json, with the error printed, and `std::fs::write`, which
-- fails with an error and may then leave something else in the file.
pub record Storage : Type 0 where
  pub from_str : String → Option (Table Value)
  pub to_string_pretty : Table Value → Result String String
  pub write : String → Option String → Result String (Unit {0}) × Option String

unfoldable pub new : StateCaps
new = record { store = []; path = none }

unfoldable pub with_file : Storage → String → Option String → StateCaps
with_file io path file = record { store = unwrap_or (bind file io.from_str) []; path = some path }

unfoldable pub persist :
    Storage → Table Value → Option String → Option String → Result String (Unit {0}) × Option String
persist io snapshot none file = (ok tt, file)
persist io snapshot (some path) file = elim (io.to_string_pretty snapshot) [
  | err e ↦ (err ("serializing state: " ⧺ e), file)
  | ok json ↦
      let (r, file') = io.write json file in (map_err (λ e. "persisting state: " ⧺ e) r, file')
]

abbrev pub done : Value
done = object (field "ok" (boolean true) end)

-- What `set` and `delete` do with the snapshot once the lock is free again.
unfoldable pub saved :
    Storage → Table Value → Option String → Option String → Result String Value × Option String
unfolding persist
saved io snapshot path file =
    let (r, file') = persist io snapshot path file in (and_then r λ _. ok done, file')

unfoldable pub string_items : List String → Items
string_items [] = nil
string_items (s ∷ ss) = cons (text s) (string_items ss)

-- `k.split('.').next()`
unfoldable pub namespace_of : String → String
unfolding split_once
namespace_of k = elim (split_once "." k) [ some p ↦ p.0 | none ↦ k ]

unfoldable pub insert_sorted : String → List String → List String
insert_sorted k [] = k ∷ []
insert_sorted k (j ∷ js) = elim (compare k j) [
  | Ordering.gt ↦ j ∷ insert_sorted k js
  | _ ↦ k ∷ j ∷ js
]

-- `sort`
unfoldable pub sorted_namespaces : List String → List String
unfolding insert_sorted namespace_of
sorted_namespaces [] = []
sorted_namespaces (k ∷ ks) = insert_sorted (namespace_of k) (sorted_namespaces ks)

-- `dedup`: of equal neighbours one is kept.
unfoldable pub dedup : List String → List String
dedup [] = []
dedup (k ∷ []) = k ∷ []
dedup (k ∷ j ∷ js) = let rest = dedup (j ∷ js) in if str_eq k j then rest else k ∷ rest

-- What a call comes to under the lock: its answer, or the snapshot that it then writes.
pub data Locked : Type 0 where
  answers : Result String Value → Locked
  saves : Table Value → Locked

-- The arms of `execute`, for a key, up to where the lock is free again, with the table that they leave.
unfoldable pub run_state : String → String → Value → Table Value → Locked × Table Value
unfolding insert remove lookup keys string_items sorted_namespaces dedup
run_state capability key args store =
    if str_eq capability "cap.state.set"
    then (let changed = insert key (unwrap_or (get args "value") null) store in
        (saves changed, changed))
    else if str_eq capability "cap.state.get"
    then (answers (ok (object (field "value" (unwrap_or (lookup key store) null) end))), store)
    else if str_eq capability "cap.state.list"
    then (answers (ok (object (field "keys" (array (string_items (keys store))) end))), store)
    else if str_eq capability "cap.state.delete"
    then (let changed = remove key store in (saves changed, changed))
    else if str_eq capability "cap.state.namespaces"
    then (
      answers (
          ok (
            object (
              field "namespaces" (array (string_items (dedup (sorted_namespaces (keys store)))))
                end))),
      store,
    )
    else (answers (err ("cap.state has no `" ⧺ (capability ⧺ "`"))), store)

unfoldable pub begin_state : String → Value → Table Value → Locked × Table Value
unfolding run_state
begin_state capability args store = elim (bind (get args "key") as_str) [
  | some key ↦ run_state capability key args store
  | none ↦ (answers (err "`key` must be a string"), store)
]

-- A call with no other beside it.
unfoldable pub execute_state : Storage → String → Value → Disk → Result String Value × Disk
unfolding begin_state saved
execute_state io capability args d =
    let (locked, store) = begin_state capability args d.caps.store in
    let out : Result String Value × Option String = elim locked [
      | answers r ↦ (r, d.file)
      | saves snapshot ↦ saved io snapshot d.caps.path d.file
    ] in
    let (r, file) = out in
    (r, record { caps = record { store = store; path = d.caps.path }; file = file })
