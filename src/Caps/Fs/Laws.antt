-- ===== src/Caps/Fs/Laws.antt =====
-- What an operation of `cap.fs` can change.
use pan.Prelude.{
  ℕ, zero, suc, ◌+◌, ◌≤◌, ◌<◌, ◌≡◌, ◌≢◌, refl, ◌∙◌, false, String, List, [], ◌∷◌, Option, some,
  Result, ok, and_then, arith, bind, unwrap_or, Bool-cases, Result-cases, Option-cases, inl, inr,
}
use pan.Json.{Value, get, as_str, as_bool}
use pan.Caps.Http.{arg_str}
use pan.Caps.Jail.{jail}
use pan.Caps.Snapshot.{Files, SnapshotStore, snap_file, make_parent}
use pan.Caps.Snapshot.Laws.{
  IsLawful, made_parent, snapshot-elsewhere, restore-elsewhere, restore_latest-elsewhere,
}
use pan.Caps.Fs.{FsCaps, sort_entries, walk, keep, run_write, run_undo, run_fs, execute_fs}

module _ {W B : Type 0} (fs : Files W B) (content : String → W → Option B)
    (lawful : IsLawful fs content) (caps : FsCaps) (fuel : ℕ) where
  module _ (path q : String) (apart : path ≢ q)
      (unsaved : (store : SnapshotStore) (n : ℕ)
        → caps.snapshot_store ≡ some store
        → snap_file fs store path (fs.decimal n) ≢ q) where
    keep-elsewhere : (w : W) → content q (keep fs caps fuel path w).1 ≡ content q w
    unfolding keep
    keep-elsewhere w = elim (Option-cases caps.snapshot_store) [
      | inl n ↦ rw (keep, n) refl
      | inr (store, s) ↦ elim (Bool-cases (fs.exists path w)) [
        | inr new ↦ rw (keep, s, new) refl
        | inl old ↦
            rw (keep, s, old)
              (snapshot-elsewhere fs content lawful store path q w (unsaved store (fs.nanos w) s))
      ]
    ]

    run_write-elsewhere :
        (text : String) (w : W) → content q (run_write fs caps fuel path text w).1 ≡ content q w
    unfolding run_write
    run_write-elsewhere text w =
        let w1 = (make_parent fs path w).1 in
        let w2 = (keep fs caps fuel path w1).1 in
        let made = made_parent fs content lawful path q w in
        let kept = keep-elsewhere w1 ∙ made in
        elim (Result-cases (make_parent fs path w).0) [
          | inr (e, m) ↦ rw (run_write, m) made
          | inl (u, m) ↦ elim (Result-cases (keep fs caps fuel path w1).0) [
            | inr (e, k) ↦ rw (run_write, m, k) kept
            | inl (u', k) ↦
                rw (run_write, m, k) (lawful.elsewhere path q (fs.encode text) w2 apart ∙ kept)
          ]
        ]

    run_undo-elsewhere :
        (args : Value) (w : W) → content q (run_undo fs caps fuel path args w).1 ≡ content q w
    unfolding run_undo
    run_undo-elsewhere args w = elim (Option-cases caps.snapshot_store) [
      | inl n ↦ rw (run_undo, n) refl
      | inr (store, s) ↦ elim (Bool-cases (unwrap_or (bind (get args "_list") as_bool) false)) [
        | inl l ↦ rw (run_undo, s, l) refl
        | inr l ↦ elim (Option-cases (bind (get args "snapshot_id") as_str)) [
          | inr (id, i) ↦
              rw (run_undo, s, l, i) (restore-elsewhere fs content lawful store path id q w apart)
          | inl i ↦
              rw (run_undo, s, l, i)
                (restore_latest-elsewhere fs content lawful store path q w apart)
        ]
      ]
    ]

    run_fs-elsewhere :
        (capability : String) (args : Value) (w : W)
        → content q (run_fs fs caps fuel capability path args w).1 ≡ content q w
    unfolding run_fs
    run_fs-elsewhere capability args w =
        let text = arg_str args "content" in
        elim (Result-cases text) [
          | inr (e, c) ↦ ground (arith, run_undo-elsewhere args w)
          | inl (t, c) ↦ ground (arith, run_undo-elsewhere args w, run_write-elsewhere t w)
        ]

  -- In a lawful file system, whatever operation is executed, the content at a place stays as it
  -- was, unless the place is the path that the jail makes of the argument, or the file of a
  -- snapshot of that path.
  pub execute_fs-elsewhere :
      (capability : String) (args : Value) (w : W) (q : String)
      → ((path : String)
          → and_then (arg_str args "path") (jail fs.paths caps.root) ≡ ok path
          → (path ≢ q)
            × ((store : SnapshotStore) (n : ℕ)
                → caps.snapshot_store ≡ some store
                → snap_file fs store path (fs.decimal n) ≢ q))
      → content q (execute_fs fs caps fuel capability args w).1 ≡ content q w
  unfolding execute_fs
  execute_fs-elsewhere capability args w q apart =
      elim (Result-cases (and_then (arg_str args "path") (jail fs.paths caps.root))) [
        | inr (e, j) ↦ rw (execute_fs, j) refl
        | inl (path, j) ↦
            let (other, unsaved) = apart path j in
            rw (execute_fs, j) (run_fs-elsewhere path q other unsaved capability args w)
      ]

-- A walk ends: with as many directories to open as there are below those on the stack, by a measure
-- that counts each with those inside of it, it lists files.
module _ {W B : Type 0} (fs : Files W B) (size : String → ℕ) where
  abbrev sizes : List String → ℕ
  sizes [] = 0
  sizes (d ∷ ds) = size d + sizes ds

  module _ (w : W)
      (below : (dir : String) (es : List (Result String String))
        → fs.read_dir dir w ≡ ok es
        → (stack files : List String)
        → sizes (sort_entries fs dir es w stack files).0 < size dir + sizes stack)
      (counted : (dir : String) → 0 < size dir) where
    pub walk-ends :
        (fuel : ℕ) (stack files : List String)
        → sizes stack ≤ fuel
        → (all : List String) × (walk fs fuel stack files w ≡ some all)
    unfolding walk
    walk-ends zero [] files h = (files, refl)
    walk-ends (suc fuel) [] files h = (files, refl)
    walk-ends zero (d ∷ ds) files h = absurd (omega (arith, counted d))
    walk-ends (suc fuel) (d ∷ ds) files h = elim (Result-cases (fs.read_dir d w)) [
      | inr (e, r) ↦ rw (walk, r) (walk-ends fuel ds files (omega (arith, counted d)))
      | inl (es, r) ↦
          let next = sort_entries fs d es w ds files in
          let less = below d es r ds files in
          rw (walk, r) (walk-ends fuel next.0 next.1 (omega arith))
    ]
