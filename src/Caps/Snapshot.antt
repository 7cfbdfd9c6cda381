-- ===== src/Caps/Snapshot.antt =====
-- pan-cap/src/snapshot.rs: the snapshots of files behind undo. The file system and the clock are an
-- argument, over a world `W` and the contents `B` of files.
pub mod Laws
use Prim.Native.Char.{Char}
use pan.Prelude.{
  ℕ, zero, suc, ◌/◌, ◌^◌, Bool, ◌||◌, String, List, [], ◌∷◌, ◌++◌, Option, none, some, Result, ok,
  err, and_then, map_err, ok_or, bind, leb, same_char, strip_prefix, parse_below, str_eq,
  if◌then◌else◌, ◌⧺◌,
}
use pan.Caps.Jail.{Paths}

-- What `std::fs` and `std::path` do, with errors printed: `read`, `write`, `create_dir_all`,
-- `remove_file`, `exists`, `is_dir`, `is_file` and `read_dir` with the names of its entries, each of
-- which may fail; the bytes of a text and the text of UTF-8 bytes; `parent` and `strip_prefix`. The clock
-- is in nanoseconds, and `decimal` is `{}` of a number.
pub record Files (W B : Type 0) : Type 0 where
  pub paths : Paths
  pub parent : String → Option String
  pub strip_root : String → String → Option String
  pub read : String → W → Result String B
  pub write : String → B → W → Result String (Unit {0}) × W
  pub create_dir_all : String → W → Result String (Unit {0}) × W
  pub remove_file : String → W → Result String (Unit {0}) × W
  pub exists : String → W → Bool
  pub is_dir : String → W → Bool
  pub is_file : String → W → Bool
  pub read_dir : String → W → Result String (List (Result String String))
  pub encode : String → B
  pub decode : B → Result String String
  pub nanos : W → ℕ
  pub decimal : ℕ → String

pub record SnapshotMeta : Type 0 where
  pub id : String
  pub timestamp : ℕ
  pub path : String

pub record SnapshotStore : Type 0 where
  pub root : String

-- `replace(['/', '\\'], "_")`
unfoldable pub escaped : String → String
escaped String.[] = ""
escaped (String.◌∷◌ c s) =
    let rest = escaped s in String.◌∷◌ (if same_char c "/" || same_char c "\\" then "_" else c) rest

-- `name.strip_suffix(suffix)`
unfoldable pub strip_suffix : String → String → Option String
strip_suffix suffix String.[] = if str_eq "" suffix then some "" else none
strip_suffix suffix (String.◌∷◌ c s) =
    let rest = bind (strip_suffix suffix s) λ r. some (String.◌∷◌ c r) in
    if str_eq (String.◌∷◌ c s) suffix then some "" else rest

-- A snapshot by the name of its file.
unfoldable pub meta_of : String → String → Option SnapshotMeta
unfolding strip_suffix parse_below
meta_of path name = bind (strip_suffix ".snap" name) λ nanos_str.
    bind (parse_below (2 ^ 64) nanos_str)
      λ nanos. some (record { id = nanos_str; timestamp = nanos / 1000000000; path = path })

-- A place before those that are not newer: the sort is stable, the newest first.
unfoldable pub place : SnapshotMeta → List SnapshotMeta → List SnapshotMeta
place m [] = m ∷ []
place m (n ∷ ns) =
    let rest = place m ns in if leb n.timestamp m.timestamp then m ∷ n ∷ ns else n ∷ rest

unfoldable pub sort_newest : List SnapshotMeta → List SnapshotMeta
unfolding place
sort_newest [] = []
sort_newest (m ∷ ms) = place m (sort_newest ms)

-- `max_by_key(|m| m.timestamp)`, which of several takes the last.
unfoldable pub max_by_timestamp : SnapshotMeta → List SnapshotMeta → SnapshotMeta
max_by_timestamp m [] = m
max_by_timestamp m (n ∷ ns) = max_by_timestamp (if leb m.timestamp n.timestamp then n else m) ns

unfoldable pub newest : List SnapshotMeta → Option SnapshotMeta
unfolding max_by_timestamp
newest [] = none
newest (m ∷ ms) = some (max_by_timestamp m ms)

-- The loop over the entries of a directory.
unfoldable pub read_metas :
    String → List (Result String String) → List SnapshotMeta → Result String (List SnapshotMeta)
unfolding meta_of
read_metas path [] metas = ok metas
read_metas path (err e ∷ es) metas = err ("snapshot entry: " ⧺ e)
read_metas path (ok name ∷ es) metas =
    read_metas path es (elim (meta_of path name) [ some m ↦ metas ++ m ∷ [] | none ↦ metas ])

module _ {W B : Type 0} (fs : Files W B) where
  -- `create_dir_all` of the parent, where there is one.
  unfoldable pub make_parent : String → W → Result String (Unit {0}) × W
  make_parent path w = elim (fs.parent path) [
    | some parent ↦ fs.create_dir_all parent w
    | none ↦ (ok tt, w)
  ]

module _ {W B : Type 0} (fs : Files W B) (store : SnapshotStore) where
  unfoldable pub snap_dir_for : String → String
  unfolding escaped
  snap_dir_for path = fs.paths.join store.root (escaped path)

  abbrev pub snap_file : String → String → String
  snap_file path id = fs.paths.join (snap_dir_for path) (id ⧺ ".snap")

  unfoldable pub snapshot : String → W → Result String String × W
  unfolding snap_dir_for
  snapshot path w = elim (fs.read path w) [
    | err e ↦ (err ("snapshot read: " ⧺ e), w)
    | ok content ↦
        let id = fs.decimal (fs.nanos w) in
        let (made, w1) = fs.create_dir_all (snap_dir_for path) w in
        elim made [
          | err e ↦ (err ("snapshot mkdir: " ⧺ e), w1)
          | ok u ↦
              let (written, w2) = fs.write (snap_file path id) content w1 in
              elim written [ err e ↦ (err ("snapshot write: " ⧺ e), w2) | ok u' ↦ (ok id, w2) ]
        ]
  ]

  unfoldable pub restore : String → String → W → Result String (Unit {0}) × W
  unfolding snap_dir_for make_parent
  restore path id w = elim (fs.read (snap_file path id) w) [
    | err e ↦ (err ("restore read: " ⧺ e), w)
    | ok content ↦
        let (made, w1) = make_parent fs path w in
        elim made [
          | err e ↦ (err ("restore mkdir: " ⧺ e), w1)
          | ok u ↦
              let (written, w2) = fs.write path content w1 in
              (map_err (λ e. "restore write: " ⧺ e) written, w2)
        ]
  ]

  unfoldable pub list : String → W → Result String (List SnapshotMeta)
  unfolding snap_dir_for read_metas sort_newest
  list path w =
      if fs.exists (snap_dir_for path) w
      then and_then (map_err (λ e. "snapshot list: " ⧺ e) (fs.read_dir (snap_dir_for path) w))
          (λ entries. and_then (read_metas path entries []) λ metas. ok (sort_newest metas))
      else ok []

  unfoldable pub restore_latest : String → W → Result String String × W
  unfolding list newest restore
  restore_latest path w = elim (list path w) [
    | err e ↦ (err e, w)
    | ok metas ↦ elim (newest metas) [
      | none ↦ (err ("no snapshots for `" ⧺ (path ⧺ "`")), w)
      | some meta ↦ let (r, w') = restore path meta.id w in (and_then r λ _. ok meta.id, w')
    ]
  ]
