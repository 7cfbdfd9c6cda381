-- ===== src/Examples/Files.antt =====
-- The capabilities on files: a file system of names and texts, a snapshot, and a skill.
use package.text.Mathlib.TextLemmas.{cons-append}
use pan.Prelude.{
  ◌≡◌, ◌≢◌, refl, sym, ap, subst, ◌∙◌, true, false, String, [], ◌∷◌, Option, none, some, ok, err,
  and_then, ok-injective, arith, str_eq, eq_iff, eq_refl, if◌then◌else◌, starts_with_char,
  Bool-cases, inl, inr, ◌⧺◌,
}
use pan.Json.{Value, text, object, field, end}
use pan.Registry.{CapabilityRegistry}
use pan.Registry
use pan.Table
use pan.Governor.{allow}
use pan.Pipeline.{State, finish}
use pan.Pipeline.Stages.{dispatch, admit, resolve}
use pan.Pipeline.Invoker.{PipelineInvoker, run_task}
use pan.Pipeline.Invoker as Invoker
use pan.Caps.Http.{arg_str}
use pan.Caps.Jail.{normal, jail, check_components}
use pan.Caps.Snapshot.{Files, SnapshotStore, snap_file, snap_dir_for, escaped, snapshot, restore}
use pan.Caps.Snapshot.Laws.{IsLawful, restore-snapshot}
use pan.Caps.Fs.{FsCaps, execute_fs}
use pan.Caps.Fs.Laws.{execute_fs-elsewhere}
use pan.Skill.{Process, eof, line, acts, Protocol, invoke, returns}
use pan.Skill.Laws.{Leaves}
use pan.Caps.Skill.{SkillCaps, Launcher, execute_skill_with_invoker}
use pan.Caps.Skill.Laws.{execute_skill_with_invoker-elsewhere}
use pan.Examples.Data.{ci, quiet_stream}

-- What each path holds.
abbrev Disk : Type 0
Disk = String → Option String

abbrev files : Files Disk String
files = record {
  paths = record {
    is_absolute = λ r. starts_with_char r "/";
    components = λ r. normal r ∷ [];
    join = λ root rel. root ⧺ ("/" ⧺ rel);
  };
  parent = λ p. none;
  strip_root = λ root p. some p;
  read = λ p w. elim (w p) [ some b ↦ ok b | none ↦ err "missing" ];
  write = λ p b w. (ok tt, λ q. if str_eq p q then some b else w q);
  create_dir_all = λ p w. (ok tt, w);
  remove_file = λ p w. (ok tt, λ q. if str_eq p q then none else w q);
  exists = λ p w. elim (w p) [ some b ↦ true | none ↦ false ];
  is_dir = λ p w. false;
  is_file = λ p w. true;
  read_dir = λ p w. ok [];
  encode = λ s. s;
  decode = λ b. ok b;
  nanos = λ w. 7;
  decimal = λ n. "7";
}

abbrev held : String → Disk → Option String
held p w = w p

differ : (a b : String) → str_eq a b ≡ false → a ≢ b
differ a b h e = let same = (eq_iff a b).1 e in cc

apart : (a b : String) → a ≢ b → str_eq a b ≡ false
apart a b n = elim (Bool-cases (str_eq a b)) [ inr h ↦ h | inl h ↦ absurd (n ((eq_iff a b).0 h)) ]

reads : (p : String) (w : Disk) (b : String) → held p w ≡ some b → files.read p w ≡ ok b
reads p w b h = rw h refl

read_back : (p : String) (w : Disk) (b : String) → files.read p w ≡ ok b → held p w ≡ some b
read_back p w b h = ground arith

files-IsLawful : IsLawful files held
files-IsLawful = record {
  reads = reads;
  read_back = read_back;
  written = λ p b w h. rw (eq_refl p) refl;
  elsewhere = λ p q b w n. rw (apart p q n) refl;
  made = λ p q w. refl;
}

abbrev store : SnapshotStore
store = record { root = "snaps" }

abbrev before : Disk
before = λ p. if str_eq p "root/a" then some "old" else none

-- After the snapshot, and a change.
abbrev kept_disk : Disk
kept_disk = λ q. if str_eq "snaps/root_a/7.snap" q then some "old" else before q

abbrev changed : Disk
changed = λ q. if str_eq "root/a" q then some "new" else kept_disk q

restore-snapshot_example :
    (held "root/a" kept_disk ≡ some "old")
    × (held "root/a" (restore files store "root/a" "7" changed).1 ≡ some "old")
    × ((q : String)
        → "root/a" ≢ q
        → held q (restore files store "root/a" "7" changed).1 ≡ held q changed)
unfolding snapshot snap_dir_for escaped restore
restore-snapshot_example =
    restore-snapshot files held files-IsLawful store "root/a" "7" "old" before kept_disk changed
      (differ "root/a" "snaps/root_a/7.snap" refl) refl refl refl refl

abbrev fs_caps : FsCaps
fs_caps = record { root = "root"; snapshot_store = some store }

abbrev write_a : Value
write_a = object (field "content" (text "new") (field "path" (text "a") end))

jailed :
    (path : String)
    → and_then (arg_str write_a "path") (jail files.paths "root") ≡ ok path
    → "root/a" ≡ path
unfolding arg_str jail check_components
jailed path h = ok-injective h

execute_fs-elsewhere_example :
    held "root/b" (execute_fs files fs_caps 0 "cap.fs.write" write_a before).1 ≡ none
unfolding snap_dir_for escaped
execute_fs-elsewhere_example =
    execute_fs-elsewhere files held files-IsLawful fs_caps 0 "cap.fs.write" write_a before "root/b"
      λ path h. (
        λ e. differ "root/a" "root/b" refl (jailed path h ∙ e),
        λ s n same e.
            let root : store ≡ s = cc in
            differ "snaps/root_a/7.snap" "root/b" refl (
              ap (λ x. snap_file files x "root/a" "7") root
              ∙ ap (λ x. snap_file files s x "7") (jailed path h)
              ∙ e),
      )

abbrev skill_caps : SkillCaps
skill_caps = record { root = "skills"; lib_dir = "lib" }

-- A skill that asks for a capability that is not registered, leaves a file of its own, and returns.
abbrev asking : Process Disk
asking = line "ask" λ answer.
    acts (λ w p. if str_eq "tmp/log" p then some "asked" else w p)
      λ w. line "return" λ a. eof "" none

abbrev wire : Protocol
wire = record {
  from_str = λ s.
      if str_eq s "ask" then ok (invoke 1 "cap.none" (object end)) else ok (returns (text "done"));
  to_string = λ v. "{}";
  exit_code = λ c. "None";
}

abbrev launcher : Launcher Disk String
launcher = record { spawn_skill = λ p v w. ok asking; pan_py = "import json" }

-- No capability is registered.
abbrev bare_invoker : PipelineInvoker Disk
bare_invoker = record {
  pipeline = record {
    registry = record { by_id = [] };
    governor = record { govern = λ scope capability args w. (allow, w) };
    executor = record {
      execute = λ c a w. (err "none", w);
      execute_with_invoker = λ c a w. finish (err "none") w;
    };
    hooks = [];
  };
  scope = ci;
}

asking-Leaves :
    (path : String) (input : Value) (w : Disk) (p : Process Disk)
    → launcher.spawn_skill path input w ≡ ok p
    → Leaves (held "etc/passwd") p
asking-Leaves path input w p h =
    subst (Leaves (held "etc/passwd")) (ok-injective h) (λ answer. ((λ w. refl), λ w a. tt))

blind :
    (q capability : String) (args : Value) (t : State Disk)
    → held q (Invoker.invoke bare_invoker capability args t).1.world ≡ held q t.world
unfolding Invoker.invoke dispatch admit resolve Registry.lookup Table.lookup
blind q capability args t = refl

abbrev there : Disk
there = λ p. if str_eq p "skills/a.py" then some "pan.invoke" else none

abbrev run_a : Value
run_a = object (field "name" (text "a.py") end)

joined :
    (name path : String) → jail files.paths "skills" name ≡ ok path → "skills" ⧺ ("/" ⧺ name) ≡ path
unfolding jail check_components
joined name path h = ground arith

elsewhere : (name path : String) → jail files.paths "skills" name ≡ ok path → path ≢ "etc/passwd"
elsewhere name path h e =
    let first =
      ap (λ s. starts_with_char s "s")
        (sym (cons-append "s" "kills" ("/" ⧺ name)) ∙ joined name path h ∙ e) in
    absurd (cc)

execute_skill_with_invoker-elsewhere_example :
    held "etc/passwd"
      (run_task bare_invoker
        (execute_skill_with_invoker files wire launcher skill_caps "cap.skill.run" run_a there)
        (record { world = there; events = quiet_stream })).1.world
    ≡ none
execute_skill_with_invoker-elsewhere_example =
    execute_skill_with_invoker-elsewhere files held files-IsLawful wire launcher skill_caps
      "etc/passwd" asking-Leaves elsewhere (λ p w n. rw (apart p "etc/passwd" n) refl) bare_invoker
      "cap.skill.run" run_a (record { world = there; events = quiet_stream }) (blind "etc/passwd")
      (differ "lib/pan.py" "etc/passwd" refl)
