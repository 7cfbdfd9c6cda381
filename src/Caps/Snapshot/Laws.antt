-- ===== src/Caps/Snapshot/Laws.antt =====
-- What restoring a snapshot brings back, and which one is the latest.
use pan.Prelude.{
  ◌≡◌, ◌≢◌, refl, sym, ap, ◌∙◌, String, Option, some, Result, ok, arith, Result-cases, Option-cases,
  inl, inr,
}
use pan.Caps.Snapshot.{
  Files, SnapshotStore, snap_dir_for, snap_file, snapshot, restore, restore_latest, list, newest,
  make_parent, newest,
}

module _ {W B : Type 0} (fs : Files W B) (content : String → W → Option B) where
  -- What a lawful file system keeps to: what is read is the content, a write that succeeds changes the
  -- content at its path and nowhere else, and making directories changes no content. Two paths are two
  -- places: links, and `.` inside of a path, are not seen.
  pub record IsLawful : Type 0 where
    pub reads : (p : String) (w : W) (b : B) → content p w ≡ some b → fs.read p w ≡ ok b
    pub read_back : (p : String) (w : W) (b : B) → fs.read p w ≡ ok b → content p w ≡ some b
    pub written :
        (p : String) (b : B) (w : W)
        → (fs.write p b w).0 ≡ ok tt
        → content p (fs.write p b w).1 ≡ some b
    pub elsewhere :
        (p q : String) (b : B) (w : W) → p ≢ q → content q (fs.write p b w).1 ≡ content q w
    pub made : (p q : String) (w : W) → content q (fs.create_dir_all p w).1 ≡ content q w

  module _ (lawful : IsLawful) (path : String) where
    pub made_parent : (q : String) (w : W) → content q (make_parent fs path w).1 ≡ content q w
    unfolding make_parent
    made_parent q w = elim (Option-cases (fs.parent path)) [
      | inl n ↦ rw (make_parent, n) refl
      | inr (d, e) ↦ rw (make_parent, e) (lawful.made d q w)
    ]

  module _ (lawful : IsLawful) (store : SnapshotStore) (path : String) where
    abbrev Ended : Result String String × W → Result String String × W → Type 0
    Ended a b = a ≡ b

    -- What a snapshot that succeeds leaves behind.
    snapshot-kept :
        (id : String) (w w1 : W)
        → snapshot fs store path w ≡ (ok id, w1)
        → path ≢ snap_file fs store path id
        → (content (snap_file fs store path id) w1 ≡ content path w)
          × (content path w1 ≡ content path w)
    unfolding snapshot
    snapshot-kept id w w1 h apart = elim (Result-cases (fs.read path w)) [
      | inr (e, r) ↦ absurd (ground arith)
      | inl (b, r) ↦
          let was = lawful.read_back path w b r in
          let dir = snap_dir_for fs store path in
          let wd = (fs.create_dir_all dir w).1 in
          elim (Result-cases (fs.create_dir_all dir w).0) [
            | inr (e, m) ↦ absurd (ground arith)
            | inl (u, m) ↦
                let file = snap_file fs store path (fs.decimal (fs.nanos w)) in
                elim (Result-cases (fs.write file b wd).0) [
                  | inr (e, x) ↦ absurd (ground arith)
                  | inl (u', x) ↦
                      let wf = (fs.write file b wd).1 in
                      let run : Ended (ok (fs.decimal (fs.nanos w)), wf) (ok id, w1) =
                        sym (rw (snapshot, r, m, x) refl) ∙ h in
                      let name : fs.decimal (fs.nanos w) ≡ id = cc in
                      let end : wf ≡ w1 = cc in
                      let at_id = ap (snap_file fs store path) name in
                      (
                        ap (λ f. content f w1) (sym at_id)
                            ∙ ap (content file) (sym end)
                            ∙ lawful.written file b wd x
                            ∙ sym was,
                        ap (content path) (sym end)
                            ∙ lawful.elsewhere file path b wd (λ e. apart (sym e ∙ at_id))
                            ∙ lawful.made dir path w,
                      )
                ]
          ]
    ]

    restored :
        (id : String) (b : B) (w : W)
        → content (snap_file fs store path id) w ≡ some b
        → (restore fs store path id w).0 ≡ ok tt
        → (content path (restore fs store path id w).1 ≡ some b)
          × ((q : String) → path ≢ q → content q (restore fs store path id w).1 ≡ content q w)
    unfolding restore
    restored id b w c h =
        let r = lawful.reads (snap_file fs store path id) w b c in
        let w1 = (make_parent fs path w).1 in
        elim (Result-cases (make_parent fs path w).0) [
          | inr (e, m) ↦ absurd (ground arith)
          | inl (u, m) ↦ elim (Result-cases (fs.write path b w1).0) [
            | inr (e, x) ↦ absurd (ground arith)
            | inl (u', x) ↦
                let end : (restore fs store path id w).1 ≡ (fs.write path b w1).1 =
                  rw (restore, r, m) refl in
                (
                  ap (content path) end ∙ lawful.written path b w1 x,
                  λ q n.
                      ap (content q) end
                      ∙ lawful.elsewhere path q b w1 n
                      ∙ made_parent lawful path q w,
                )
          ]
        ]

    -- In a lawful file system, where a snapshot of a path that is not its own snapshot file
    -- succeeded, and that file was not written to since, restoring it by the id that was returned,
    -- if that succeeds, gives the path the content that it had, whatever it was changed to, and
    -- changes no other path; and the snapshot itself left the path as it was.
    pub restore-snapshot :
        (id : String) (b : B) (w w1 w2 : W)
        → path ≢ snap_file fs store path id
        → content path w ≡ some b
        → snapshot fs store path w ≡ (ok id, w1)
        → content (snap_file fs store path id) w2 ≡ content (snap_file fs store path id) w1
        → (restore fs store path id w2).0 ≡ ok tt
        → (content path w1 ≡ some b)
          × (content path (restore fs store path id w2).1 ≡ some b)
          × ((q : String) → path ≢ q → content q (restore fs store path id w2).1 ≡ content q w2)
    restore-snapshot id b w w1 w2 apart was taken same done =
        let (kept, left) = snapshot-kept id w w1 taken apart in
        let (back, others) = restored id b w2 (same ∙ kept ∙ was) done in (left ∙ was, back, others)

    -- A snapshot writes to its own file only, and a restore to the path only, done or not.
    pub snapshot-elsewhere :
        (q : String) (w : W)
        → snap_file fs store path (fs.decimal (fs.nanos w)) ≢ q
        → content q (snapshot fs store path w).1 ≡ content q w
    unfolding snapshot
    snapshot-elsewhere q w apart = elim (Result-cases (fs.read path w)) [
      | inr (e, r) ↦ rw (snapshot, r) refl
      | inl (b, r) ↦
          let dir = snap_dir_for fs store path in
          let wd = (fs.create_dir_all dir w).1 in
          let made = lawful.made dir q w in
          let file = snap_file fs store path (fs.decimal (fs.nanos w)) in
          elim (Result-cases (fs.create_dir_all dir w).0) [
            | inr (e, m) ↦ rw (snapshot, r, m) made
            | inl (u, m) ↦
                let other = lawful.elsewhere file q b wd apart ∙ made in
                elim (Result-cases (fs.write file b wd).0) [
                  | inr (e, x) ↦ rw (snapshot, r, m, x) other
                  | inl (u', x) ↦ rw (snapshot, r, m, x) other
                ]
          ]
    ]

    pub restore-elsewhere :
        (id q : String) (w : W) → path ≢ q → content q (restore fs store path id w).1 ≡ content q w
    unfolding restore
    restore-elsewhere id q w apart = elim (Result-cases (fs.read (snap_file fs store path id) w)) [
      | inr (e, r) ↦ rw (restore, r) refl
      | inl (b, r) ↦
          let made = made_parent lawful path q w in
          let w1 = (make_parent fs path w).1 in
          elim (Result-cases (make_parent fs path w).0) [
            | inr (e, m) ↦ rw (restore, r, m) made
            | inl (u, m) ↦ rw (restore, r, m) (lawful.elsewhere path q b w1 apart ∙ made)
          ]
    ]

    pub restore_latest-elsewhere :
        (q : String) (w : W) → path ≢ q → content q (restore_latest fs store path w).1 ≡ content q w
    unfolding restore_latest
    restore_latest-elsewhere q w apart = elim (Result-cases (list fs store path w)) [
      | inr (e, l) ↦ rw (restore_latest, l) refl
      | inl (metas, l) ↦ elim (Option-cases (newest metas)) [
        | inl n ↦ rw (restore_latest, l, n) refl
        | inr (m, n) ↦ rw (restore_latest, l, n) (restore-elsewhere m.id q w apart)
      ]
    ]
