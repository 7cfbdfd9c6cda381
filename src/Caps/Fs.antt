-- ===== src/Caps/Fs.antt =====
-- pan-cap/src/fs.rs: `cap.fs`. The file system is the argument that its snapshots use too. A walk takes the
-- number of directories that it may open; where that does not do, the answer is missing.
pub mod Laws
use Prim.Native.String.{len}
use pan.Prelude.{
  ℕ, zero, suc, ◌+◌, Bool, true, false, String, List, [], ◌∷◌, ◌++◌, Option, none, some, Result, ok,
  err, and_then, map_err, map_ok, ok_or, bind, unwrap_or, is_some, lines, split_once_at, str_eq,
  if◌then◌else◌, ◌⧺◌,
}
use pan.Json.{
  Value, number, pos_int, text, array, object, Items, nil, cons, field, end, get, as_str, as_bool,
}
use pan.Caps.Http.{arg_str}
use pan.Caps.State.{insert_sorted, string_items}
use pan.Caps.Glob.{glob_match}
use pan.Caps.Jail.{jail}
use pan.Caps.Snapshot.{
  Files, SnapshotMeta, SnapshotStore, snapshot, restore, restore_latest, list, make_parent,
}

pub record FsCaps : Type 0 where
  pub root : String
  pub snapshot_store : Option SnapshotStore

-- `sort`
unfoldable pub sorted : List String → List String
unfolding insert_sorted
sorted [] = []
sorted (s ∷ ss) = insert_sorted s (sorted ss)

-- The names of the entries of a directory, unless one fails.
unfoldable pub entry_names : List (Result String String) → Result String (List String)
entry_names [] = ok []
entry_names (err e ∷ es) = err ("list: " ⧺ e)
entry_names (ok name ∷ es) = map_ok (λ names. name ∷ names) (entry_names es)

abbrev pub contains : String → String → Bool
contains line query = is_some (split_once_at query line)

-- The lines that hold the query, numbered from `i` on.
unfoldable pub matching_lines : String → String → ℕ → List String → List Value
unfolding split_once_at
matching_lines query file i [] = []
matching_lines query file i (line ∷ rest) =
    let later = matching_lines query file (i + 1) rest in
    if contains line query
    then object (
        field "file" (text file) (field "line" (number (pos_int i)) (field "text" (text line) end)))
      ∷ later
    else later

abbrev pub value_items : List Value → Items
value_items [] = nil
value_items (v ∷ vs) = cons v (value_items vs)

unfoldable pub meta_value : SnapshotMeta → Value
meta_value m = object (
    field "id" (text m.id)
      (field "path" (text m.path) (field "timestamp" (number (pos_int m.timestamp)) end)))

unfoldable pub meta_values : List SnapshotMeta → List Value
unfolding meta_value
meta_values [] = []
meta_values (m ∷ ms) = meta_value m ∷ meta_values ms

module _ {W B : Type 0} (fs : Files W B) where
  -- The entries of a directory, split into those to walk and those that are files, on top of both.
  unfoldable pub sort_entries :
      String
      → List (Result String String)
      → W
      → List String
      → List String
      → List String × List String
  sort_entries dir [] w stack files = (stack, files)
  sort_entries dir (err e ∷ es) w stack files = sort_entries dir es w stack files
  sort_entries dir (ok name ∷ es) w stack files =
      let path = fs.paths.join dir name in
      let is_dir = fs.is_dir path w in
      sort_entries dir es w (if is_dir then path ∷ stack else stack)
        (if is_dir then files else files ++ path ∷ [])

  -- The loop of `walk_files`.
  unfoldable pub walk : ℕ → List String → List String → W → Option (List String)
  unfolding sort_entries
  walk fuel [] files w = some files
  walk zero (dir ∷ stack) files w = none
  walk (suc fuel) (dir ∷ stack) files w = elim (fs.read_dir dir w) [
    | err e ↦ walk fuel stack files w
    | ok entries ↦
        let (stack', files') = sort_entries dir entries w stack files in walk fuel stack' files' w
  ]

  unfoldable pub walk_files : ℕ → String → W → Option (List String)
  unfolding walk
  walk_files fuel root w =
      if fs.is_dir root w
      then walk fuel (root ∷ []) [] w
      else if fs.is_file root w
      then some (root ∷ [])
      else some []

  -- The files of a walk that match a pattern, below the root.
  unfoldable pub glob_matches : String → String → List String → List String
  unfolding glob_match
  glob_matches root pattern [] = []
  glob_matches root pattern (entry ∷ rest) =
      let later = glob_matches root pattern rest in
      if glob_match pattern entry
      then (elim (fs.strip_root root entry) [ some rel ↦ rel ∷ later | none ↦ later ])
      else later

  unfoldable pub search_file : String → String → W → String → List Value
  unfolding lines matching_lines
  search_file root query w entry = elim (and_then (fs.read entry w) fs.decode) [
    | err e ↦ []
    | ok content ↦ elim (fs.strip_root root entry) [
      | some rel ↦ matching_lines query rel 1 (lines content)
      | none ↦ []
    ]
  ]

  unfoldable pub search_files : String → String → W → List String → List Value
  unfolding search_file
  search_files root query w [] = []
  search_files root query w (entry ∷ rest) =
      let later = search_files root query w rest in
      if fs.is_file entry w then search_file root query w entry ++ later else later

  module _ (caps : FsCaps) (fuel : ℕ) where
    abbrev pub Answer : Type 0
    Answer = Option (Result String Value) × W

    abbrev pub answer : Result String Value → W → Answer
    answer r w = (some r, w)

    unfoldable pub run_read : String → W → Result String Value
    run_read path w =
        map_ok (λ content. object (field "content" (text content) end))
          (map_err (λ e. "read: " ⧺ e) (and_then (fs.read path w) fs.decode))

    -- The snapshot before a write, where there is a store and something to keep.
    unfoldable pub keep : String → W → Result String (Unit {0}) × W
    unfolding snapshot
    keep path w = elim caps.snapshot_store [
      | none ↦ (ok tt, w)
      | some store ↦ elim (fs.exists path w) [
        | false ↦ (ok tt, w)
        | true ↦ let (r, w') = snapshot fs store path w in (map_ok (λ id. tt) r, w')
      ]
    ]

    unfoldable pub run_write : String → String → W → Result String Value × W
    unfolding make_parent keep
    run_write path content w =
        let (made, w1) = make_parent fs path w in
        elim made [
          | err e ↦ (err ("mkdir: " ⧺ e), w1)
          | ok u ↦
              let (kept, w2) = keep path w1 in
              elim kept [
                | err e ↦ (err e, w2)
                | ok u' ↦
                    let (written, w3) = fs.write path (fs.encode content) w2 in
                    (
                      map_ok (λ _. object (field "bytes" (number (pos_int (len content))) end))
                          (map_err (λ e. "write: " ⧺ e) written),
                      w3,
                    )
              ]
        ]

    unfoldable pub run_list : String → W → Result String Value
    unfolding entry_names sorted string_items
    run_list path w = and_then (map_err (λ e. "list: " ⧺ e) (fs.read_dir path w)) λ entries.
        map_ok (λ names. object (field "entries" (array (string_items (sorted names))) end))
          (entry_names entries)

    unfoldable pub run_glob : Value → W → Option (Result String Value)
    unfolding arg_str jail walk_files glob_matches sorted string_items
    run_glob args w = elim (and_then (arg_str args "pattern") (jail fs.paths caps.root)) [
      | err e ↦ some (err e)
      | ok pattern ↦ bind (walk_files fuel caps.root w) λ files. some (
          ok (
            object (
              field "matches" (array (string_items (sorted (glob_matches caps.root pattern files))))
                end)))
    ]

    unfoldable pub run_search : Value → W → Option (Result String Value)
    unfolding arg_str jail walk_files search_files search_file
    run_search args w = elim (arg_str args "query") [
      | err e ↦ some (err e)
      | ok query ↦ elim (and_then (arg_str args "path") (jail fs.paths caps.root)) [
        | err e ↦ some (err e)
        | ok path ↦
            let found : Option (List Value) =
              if fs.is_dir path w
              then bind (walk_files fuel path w)
                  (λ files. some (search_files caps.root query w files))
              else if fs.is_file path w
              then some (search_file caps.root query w path)
              else some [] in
            bind found
              λ values. some (ok (object (field "matches" (array (value_items values)) end)))
      ]
    ]

    abbrev pub restored : String → String → Value
    restored path id = object (field "restored" (text path) (field "snapshot_id" (text id) end))

    unfoldable pub run_undo : String → Value → W → Result String Value × W
    unfolding list restore restore_latest meta_values
    run_undo path args w = elim caps.snapshot_store [
      | none ↦ (err "snapshot store not configured (no `snapshot_root` setting)", w)
      | some store ↦ elim (unwrap_or (bind (get args "_list") as_bool) false) [
        | true ↦ (
          map_ok (λ metas. object (field "snapshots" (array (value_items (meta_values metas))) end))
              (list fs store path w),
          w,
        )
        | false ↦ elim (bind (get args "snapshot_id") as_str) [
          | some id ↦
              let (r, w') = restore fs store path id w in (map_ok (λ _. restored path id) r, w')
          | none ↦ let (r, w') = restore_latest fs store path w in (map_ok (restored path) r, w')
        ]
      ]
    ]

    -- The arms of `execute`, for a path of the jail.
    unfoldable pub run_fs : String → String → Value → W → Answer
    unfolding run_read run_write run_list run_glob run_search run_undo arg_str
    run_fs capability path args w =
        if str_eq capability "cap.fs.read"
        then answer (run_read path w) w
        else if str_eq capability "cap.fs.write"
        then (elim (arg_str args "content") [
          | err e ↦ answer (err e) w
          | ok content ↦ let (r, w') = run_write path content w in answer r w'
        ])
        else if str_eq capability "cap.fs.list"
        then answer (run_list path w) w
        else if str_eq capability "cap.fs.glob"
        then (run_glob args w, w)
        else if str_eq capability "cap.fs.search"
        then (run_search args w, w)
        else if str_eq capability "cap.fs.undo"
        then (let (r, w') = run_undo path args w in answer r w')
        else answer (err ("cap.fs has no `" ⧺ (capability ⧺ "`"))) w

    unfoldable pub execute_fs : String → Value → W → Answer
    unfolding arg_str jail run_fs
    execute_fs capability args w = elim (and_then (arg_str args "path") (jail fs.paths caps.root)) [
      | err e ↦ answer (err e) w
      | ok path ↦ run_fs capability path args w
    ]
