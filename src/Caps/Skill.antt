-- ===== src/Caps/Skill.antt =====
-- pan-cap/src/skill.rs: `cap.skill`, over the file system of `cap.fs`. Starting a process is an argument.
pub mod Laws
use pan.Prelude.{
  Bool, true, false, ◌||◌, String, List, [], ◌∷◌, Option, none, some, Result, ok, err, and_then,
  map_err, map_ok, unwrap_or, retain, ends_with, str_eq, if◌then◌else◌, ◌⧺◌,
}
use pan.Json.{Value, null, boolean, text, array, object, field, end, get}
use pan.Pipeline.{Task, finish}
use pan.Caps.Http.{arg_str}
use pan.Caps.State.{string_items, done}
use pan.Caps.Jail.{jail}
use pan.Caps.Snapshot.{Files, make_parent}
use pan.Caps.Fs.{entry_names, sorted}
use pan.Skill.{SkillError, spawn, Process, Protocol, converse, skill_error_text}

pub record SkillCaps : Type 0 where
  pub root : String
  pub lib_dir : String

-- `Command::spawn` for a path of a skill and its input, and the source of `pan.py`.
pub record Launcher (W B : Type 0) : Type 0 where
  pub spawn_skill : String → Value → W → Result String (Process W)
  pub pan_py : B

module _ {W B : Type 0} (fs : Files W B) (wire : Protocol) (launcher : Launcher W B)
    (caps : SkillCaps) where
  unfoldable pub jailed : Value → Result String (String × String)
  unfolding arg_str jail
  jailed args =
      and_then (arg_str args "name")
        λ name. and_then (jail fs.paths caps.root name) λ path. ok (name, path)

  -- `ensure_dir` and the write that follows it.
  unfoldable pub write_skill : String → String → String → W → Result String Value × W
  unfolding make_parent
  write_skill name path source w =
      let (made, w1) = make_parent fs path w in
      elim made [
        | err e ↦ (err ("mkdir: " ⧺ e), w1)
        | ok u ↦
            let (written, w2) = fs.write path (fs.encode source) w1 in
            (
              map_ok (λ _. object (field "ok" (boolean true) (field "path" (text name) end)))
                  (map_err (λ e. "write: " ⧺ e) written),
              w2,
            )
      ]

  -- The arguments of `cap.skill.create` and `cap.skill.edit`.
  unfoldable pub named_source : Value → Result String (String × String × String)
  unfolding arg_str jail
  named_source args = and_then (arg_str args "name") λ name.
      and_then (arg_str args "source")
        λ source. and_then (jail fs.paths caps.root name) λ path. ok (name, source, path)

  unfoldable pub create_skill : Value → W → Result String Value × W
  unfolding named_source write_skill
  create_skill args w = elim (named_source args) [
    | err e ↦ (err e, w)
    | ok (name, source, path) ↦ elim (fs.exists path w) [
      | true ↦ (err ("skill `" ⧺ (name ⧺ "` already exists")), w)
      | false ↦ write_skill name path source w
    ]
  ]

  abbrev pub no_skill : String → String
  no_skill name = "skill `" ⧺ (name ⧺ "` does not exist")

  unfoldable pub edit_skill : Value → W → Result String Value × W
  unfolding named_source write_skill
  edit_skill args w = elim (named_source args) [
    | err e ↦ (err e, w)
    | ok (name, source, path) ↦ elim (fs.exists path w) [
      | true ↦ write_skill name path source w
      | false ↦ (err (no_skill name), w)
    ]
  ]

  unfoldable pub list_skills : W → Result String Value
  unfolding entry_names ends_with sorted string_items
  list_skills w =
      let names : Result String (List String) =
        if fs.exists caps.root w
        then and_then (map_err (λ e. "list: " ⧺ e) (fs.read_dir caps.root w)) (λ entries.
          map_ok (retain (λ name. ends_with name ".py" || ends_with name ".toml"))
            (entry_names entries))
        else ok [] in
      map_ok (λ skills. object (field "skills" (array (string_items (sorted skills))) end)) names

  unfoldable pub delete_skill : Value → W → Result String Value × W
  unfolding jailed
  delete_skill args w = elim (jailed args) [
    | err e ↦ (err e, w)
    | ok (name, path) ↦ elim (fs.exists path w) [
      | false ↦ (err (no_skill name), w)
      | true ↦
          let (removed, w') = fs.remove_file path w in
          (map_ok (λ _. done) (map_err (λ e. "delete: " ⧺ e) removed), w')
    ]
  ]

  unfoldable pub execute_skill : String → Value → W → Result String Value × W
  unfolding create_skill edit_skill list_skills delete_skill
  execute_skill capability args w =
      if str_eq capability "cap.skill.run"
      then (err "cap.skill.run requires a ScopedInvoker", w)
      else if str_eq capability "cap.skill.create"
      then create_skill args w
      else if str_eq capability "cap.skill.edit"
      then edit_skill args w
      else if str_eq capability "cap.skill.list"
      then (list_skills w, w)
      else if str_eq capability "cap.skill.delete"
      then delete_skill args w
      else (err ("cap.skill has no `" ⧺ (capability ⧺ "`")), w)

  -- What becomes of the value that a skill returns.
  unfoldable pub skill_result : Result SkillError Value → W → Task W
  unfolding skill_error_text
  skill_result r w =
      finish
        (map_ok (λ v. object (field "result" v end))
          (map_err (λ e. "skill run: " ⧺ skill_error_text wire e) r))
        w

  -- `SkillRunner::new`, which puts `pan.py` where the skill finds it.
  unfoldable pub new_runner : W → Result String (Unit {0}) × W
  new_runner w =
      let (made, w1) = fs.create_dir_all caps.lib_dir w in
      elim made [
        | err e ↦ (err e, w1)
        | ok u ↦ fs.write (fs.paths.join caps.lib_dir "pan.py") launcher.pan_py w1
      ]

  unfoldable pub run_skill : String → Value → W → Task W
  unfolding new_runner skill_result converse
  run_skill path input w =
      let (made, w1) = new_runner w in
      elim made [
        | err e ↦ finish (err ("skill runner: " ⧺ e)) w1
        | ok u ↦ elim (launcher.spawn_skill path input w1) [
          | err e ↦ skill_result (err (spawn e)) w1
          | ok p ↦ converse wire skill_result p w1
        ]
      ]

  unfoldable pub execute_skill_with_invoker : String → Value → W → Task W
  unfolding execute_skill jailed run_skill
  execute_skill_with_invoker capability args w =
      if str_eq capability "cap.skill.run"
      then (elim (jailed args) [
        | err e ↦ finish (err e) w
        | ok (name, path) ↦ elim (fs.exists path w) [
          | false ↦ finish (err (no_skill name)) w
          | true ↦ run_skill path (unwrap_or (get args "input") null) w
        ]
      ])
      else (let (r, w') = execute_skill capability args w in finish r w')
