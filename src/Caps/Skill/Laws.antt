-- ===== src/Caps/Skill/Laws.antt =====
-- What `cap.skill` can change, a run of a skill included.
use pan.Prelude.{
  ◌≡◌, ◌≢◌, refl, sym, ap, subst, ◌∙◌, String, Option, ok, and_then, and_then-ok, ok-injective,
  eq_iff, arith, unwrap_or, str_eq, Bool-cases, Result-cases, inl, inr,
}
use pan.Json.{Value, null, get}
use pan.Pipeline.{State}
use pan.Pipeline.Invoker.{PipelineInvoker, run_task}
use pan.Pipeline.Invoker as Invoker
use pan.Caps.Http.{arg_str}
use pan.Caps.Jail.{jail}
use pan.Caps.Snapshot.{Files, make_parent}
use pan.Caps.Snapshot.Laws.{IsLawful, made_parent}
use pan.Skill.{Process, Protocol}
use pan.Skill.Laws.{Leaves, converse-blind}
use pan.Caps.Skill.{
  SkillCaps, Launcher, skill_result, new_runner, run_skill, jailed, execute_skill,
  execute_skill_with_invoker, write_skill, create_skill, edit_skill, delete_skill, named_source,
}

module _ {W B : Type 0} (fs : Files W B) (content : String → W → Option B)
    (lawful : IsLawful fs content) (wire : Protocol) (launcher : Launcher W B) (caps : SkillCaps)
    (q : String)
    (own : (path : String) (input : Value) (w : W) (p : Process W)
      → launcher.spawn_skill path input w ≡ ok p
      → Leaves (content q) p) where
  new_runner-elsewhere :
      (w : W)
      → fs.paths.join caps.lib_dir "pan.py" ≢ q
      → content q (new_runner fs wire launcher caps w).1 ≡ content q w
  unfolding new_runner
  new_runner-elsewhere w apart =
      let made = lawful.made caps.lib_dir q w in
      let w1 = (fs.create_dir_all caps.lib_dir w).1 in
      elim (Result-cases (fs.create_dir_all caps.lib_dir w).0) [
        | inr (e, m) ↦ rw (new_runner, m) made
        | inl (u, m) ↦ rw (new_runner, m) (lawful.elsewhere _ q launcher.pan_py w1 apart ∙ made)
      ]

  -- Running a skill changes no content but that of the library it is given, where neither its
  -- process by itself nor any of its invocations would.
  pub run_skill-elsewhere :
      (inv : PipelineInvoker W) (path : String) (input : Value) (w : W) (s : State W)
      → ((capability : String) (args : Value) (t : State W)
          → content q (Invoker.invoke inv capability args t).1.world ≡ content q t.world)
      → fs.paths.join caps.lib_dir "pan.py" ≢ q
      → content q (run_task inv (run_skill fs wire launcher caps path input w) s).1.world
        ≡ content q w
  unfolding run_skill skill_result run_task
  run_skill-elsewhere inv path input w s blind apart =
      let made = new_runner-elsewhere w apart in
      let w1 = (new_runner fs wire launcher caps w).1 in
      elim (Result-cases (new_runner fs wire launcher caps w).0) [
        | inr (e, m) ↦ rw (run_skill, m) made
        | inl (u, m) ↦ elim (Result-cases (launcher.spawn_skill path input w1)) [
          | inr (e, p) ↦ rw (run_skill, m, p) made
          | inl (p, h) ↦
              rw (run_skill, m, h)
                (converse-blind (content q) inv wire blind (skill_result fs wire launcher caps)
                    (λ r w' t. refl) p w1 s (own path input w1 p h)
                  ∙ made)
        ]
      ]

  skill_run-elsewhere :
      (inv : PipelineInvoker W) (args : Value) (s : State W)
      → ((capability : String) (asked : Value) (t : State W)
          → content q (Invoker.invoke inv capability asked t).1.world ≡ content q t.world)
      → fs.paths.join caps.lib_dir "pan.py" ≢ q
      → content q
          (run_task inv
            (execute_skill_with_invoker fs wire launcher caps "cap.skill.run" args s.world)
            s).1.world
        ≡ content q s.world
  unfolding execute_skill_with_invoker run_task
  skill_run-elsewhere inv args s blind apart =
      elim (Result-cases (jailed fs wire launcher caps args)) [
        | inr (e, j) ↦ rw (execute_skill_with_invoker, j) refl
        | inl ((name, path), j) ↦ elim (Bool-cases (fs.exists path s.world)) [
          | inr gone ↦ rw (execute_skill_with_invoker, j, gone) refl
          | inl there ↦
              rw (execute_skill_with_invoker, j, there)
                (run_skill-elsewhere inv path (unwrap_or (get args "input") null) s.world s blind
                  apart)
        ]
      ]

  module _ (apart : (name path : String) → jail fs.paths caps.root name ≡ ok path → path ≢ q)
      (removed : (p : String) (w : W)
        → p ≢ q
        → content q (fs.remove_file p w).1 ≡ content q w) where
    named_source-jailed :
        (args : Value) (name source path : String)
        → named_source fs wire launcher caps args ≡ ok (name, source, path)
        → path ≢ q
    unfolding named_source
    named_source-jailed args name source path h =
        let (n, a, r) = and_then-ok (arg_str args "name") _ h in
        let (t, b, r') =
          and_then-ok (arg_str args "source")
            (λ t. and_then (jail fs.paths caps.root n) λ p. ok (n, t, p)) r in
        let (p, j, e) = and_then-ok (jail fs.paths caps.root n) (λ p. ok (n, t, p)) r' in
        let same : p ≡ path = ap (λ (x : String × String × String). x.2) (ok-injective e) in
        λ z. apart n p j (same ∙ z)

    jailed-apart :
        (args : Value) (name path : String)
        → jailed fs wire launcher caps args ≡ ok (name, path)
        → path ≢ q
    unfolding jailed
    jailed-apart args name path h =
        let (n, a, r) = and_then-ok (arg_str args "name") _ h in
        let (p, j, e) = and_then-ok (jail fs.paths caps.root n) (λ p. ok (n, p)) r in
        let same : p ≡ path = ap (λ (x : String × String). x.1) (ok-injective e) in
        λ z. apart n p j (same ∙ z)

    write_skill-elsewhere :
        (name path source : String) (w : W)
        → path ≢ q
        → content q (write_skill fs wire launcher caps name path source w).1 ≡ content q w
    unfolding write_skill
    write_skill-elsewhere name path source w other =
        let made = made_parent fs content lawful path q w in
        let w1 = (make_parent fs path w).1 in
        elim (Result-cases (make_parent fs path w).0) [
          | inr (e, m) ↦ rw (write_skill, m) made
          | inl (u, m) ↦ rw (write_skill, m) (lawful.elsewhere path q _ w1 other ∙ made)
        ]

    create_skill-elsewhere :
        (args : Value) (w : W)
        → content q (create_skill fs wire launcher caps args w).1 ≡ content q w
    unfolding create_skill
    create_skill-elsewhere args w = elim (Result-cases (named_source fs wire launcher caps args)) [
      | inr (e, n) ↦ rw (create_skill, n) refl
      | inl ((name, source, path), n) ↦ elim (Bool-cases (fs.exists path w)) [
        | inl there ↦ rw (create_skill, n, there) refl
        | inr gone ↦
            rw (create_skill, n, gone)
              (write_skill-elsewhere name path source w
                (named_source-jailed args name source path n))
      ]
    ]

    edit_skill-elsewhere :
        (args : Value) (w : W) → content q (edit_skill fs wire launcher caps args w).1 ≡ content q w
    unfolding edit_skill
    edit_skill-elsewhere args w = elim (Result-cases (named_source fs wire launcher caps args)) [
      | inr (e, n) ↦ rw (edit_skill, n) refl
      | inl ((name, source, path), n) ↦ elim (Bool-cases (fs.exists path w)) [
        | inr gone ↦ rw (edit_skill, n, gone) refl
        | inl there ↦
            rw (edit_skill, n, there)
              (write_skill-elsewhere name path source w
                (named_source-jailed args name source path n))
      ]
    ]

    delete_skill-elsewhere :
        (args : Value) (w : W)
        → content q (delete_skill fs wire launcher caps args w).1 ≡ content q w
    unfolding delete_skill
    delete_skill-elsewhere args w = elim (Result-cases (jailed fs wire launcher caps args)) [
      | inr (e, n) ↦ rw (delete_skill, n) refl
      | inl ((name, path), n) ↦ elim (Bool-cases (fs.exists path w)) [
        | inr gone ↦ rw (delete_skill, n, gone) refl
        | inl there ↦ rw (delete_skill, n, there) (removed path w (jailed-apart args name path n))
      ]
    ]

    execute_skill-elsewhere :
        (capability : String) (args : Value) (w : W)
        → content q (execute_skill fs wire launcher caps capability args w).1 ≡ content q w
    unfolding execute_skill
    execute_skill-elsewhere capability args w = ground (
      arith,
      create_skill-elsewhere args w,
      edit_skill-elsewhere args w,
      delete_skill-elsewhere args w,
    )

    -- In a lawful file system, whatever operation of `cap.skill` is executed with an invoker, the
    -- content at a place stays as it was, where the place is no path that the jail lets through
    -- and not the library for skills, removing a file changes no other, no invocation under the
    -- scope changes the place, and no process of a skill changes it by itself, which `cap.skill`
    -- does not prevent.
    pub execute_skill_with_invoker-elsewhere :
        (inv : PipelineInvoker W) (capability : String) (args : Value) (s : State W)
        → ((asked : String) (with : Value) (t : State W)
            → content q (Invoker.invoke inv asked with t).1.world ≡ content q t.world)
        → fs.paths.join caps.lib_dir "pan.py" ≢ q
        → content q
            (run_task inv
              (execute_skill_with_invoker fs wire launcher caps capability args s.world)
              s).1.world
          ≡ content q s.world
    unfolding execute_skill_with_invoker run_task
    execute_skill_with_invoker-elsewhere inv capability args s blind lib =
        elim (Bool-cases (str_eq capability "cap.skill.run")) [
          | inr other ↦
              let plain = execute_skill-elsewhere capability args s.world in
              rw (execute_skill_with_invoker, other) (rw (execute_skill, other) at plain)
          | inl run ↦
              let named : capability ≡ "cap.skill.run" =
                (eq_iff capability "cap.skill.run").0 run in
              subst
                (λ c.
                  content q
                    (run_task inv (execute_skill_with_invoker fs wire launcher caps c args s.world)
                      s).1.world
                  ≡ content q s.world)
                (sym named) (skill_run-elsewhere inv args s blind lib)
        ]
