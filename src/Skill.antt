-- ===== src/Skill.antt =====
-- pan-skill/src: a skill is a process that asks for capabilities line by line. `cap.skill` starts it
-- without a sandbox: between its lines it may change the world by itself. The process is the tree of what
-- it does, what it writes and how it goes on after each answer. The spawning options are left out; parsing
-- and printing json are arguments.
pub mod Laws
use pan.Prelude.{
  ℕ, Bool, true, false, String, List, [], ◌∷◌, Option, none, some, Result, ok, err, map_err,
  is_blank, ◌⧺◌,
}
use pan.Json.{Value, null, boolean, number, pos_int, text, object, Fields, field, end}
use pan.Pipeline.{InvokeError, not_found, invalid_args, refused, run_failed, Task, finish, ask}

-- A message of a skill.
pub data FromSkill : Type 0 where
  invoke : ℕ → String → Value → FromSkill
  returns : Value → FromSkill

pub data SkillError : Type 0 where
  spawn io : String → SkillError
  protocol : String → String → SkillError
  no_return : String → Option ℕ → SkillError

-- What talking to a process comes to: the end of its output, with what it wrote to its standard error and
-- its exit code, a failure to read from it or to write to it, or a line, with how it goes on after the
-- answer, if the line gets one. Before any of them the process may act on the world by itself, and go on by
-- what it found there.
pub data Process (W : Type 0) : Type 0 where
  eof : String → Option ℕ → Process W
  broken : String → Process W
  line : String → (Option String → Process W) → Process W
  acts : (W → W) → (W → Process W) → Process W

-- `from_str` of a message with the error printed, `to_string`, and the texts of `{:?}` and `{}`.
pub record Protocol : Type 0 where
  pub from_str : String → Result String FromSkill
  pub to_string : Value → String
  pub exit_code : Option ℕ → String

-- `impl Display for InvokeError` of pan-core/src/invoker.rs
unfoldable pub invoke_error_text : InvokeError → String
invoke_error_text (not_found capability) = "no such capability `" ⧺ (capability ⧺ "`")
invoke_error_text (invalid_args capability reason) =
    "invalid args for `" ⧺ (capability ⧺ ("`: " ⧺ reason))
invoke_error_text (refused capability reason) = "denied `" ⧺ (capability ⧺ ("`: " ⧺ reason))
invoke_error_text (run_failed capability reason) = "`" ⧺ (capability ⧺ ("` failed: " ⧺ reason))

unfoldable pub kind_of : InvokeError → String
kind_of (not_found capability) = "not_found"
kind_of (invalid_args capability reason) = "invalid_args"
kind_of (refused capability reason) = "denied"
kind_of (run_failed capability reason) = "failed"

unfoldable pub invoke_error_info : InvokeError → Value
unfolding kind_of invoke_error_text
invoke_error_info e =
    object (field "kind" (text (kind_of e)) (field "message" (text (invoke_error_text e)) end))

module _ (wire : Protocol) where
  unfoldable pub skill_error_text : SkillError → String
  skill_error_text (spawn e) = "could not spawn skill process: " ⧺ e
  skill_error_text (protocol said detail) = "malformed skill message (" ⧺ (detail ⧺ ("): " ⧺ said))
  skill_error_text (no_return stderr code) =
      "skill exited (code " ⧺ (wire.exit_code code ⧺ (") without returning; stderr:\n" ⧺ stderr))
  skill_error_text (io e) = "skill I/O error: " ⧺ e

  -- The line that answers a request.
  unfoldable pub result_line : ℕ → Result InvokeError Value → String
  unfolding invoke_error_info
  result_line id (ok v) =
      wire.to_string (
        object (
          field "id" (number (pos_int id))
            (field "ok" (boolean true) (field "type" (text "result") (field "value" v end)))))
      ⧺ "\n"
  result_line id (err e) =
      wire.to_string (
        object (
          field "error" (invoke_error_info e) (
            field "id" (number (pos_int id))
              (field "ok" (boolean false) (field "type" (text "result") end)))))
      ⧺ "\n"

  module _ {W : Type 0} (done : Result SkillError Value → W → Task W) where
    -- The loop over the lines, and what follows it.
    unfoldable pub converse : Process W → W → Task W
    unfolding is_blank result_line
    converse (eof stderr code) w = done (err (no_return stderr code)) w
    converse (broken e) w = done (err (io e)) w
    converse (acts change next) w = converse (next w) (change w)
    converse (line said next) w = elim (is_blank said) [
      | true ↦ converse (next none) w
      | false ↦ elim (wire.from_str said) [
        | err e ↦ done (err (protocol said e)) w
        | ok (returns v) ↦ done (ok v) w
        | ok (invoke id capability args) ↦
            ask capability args w λ answer w'. converse (next (some (result_line id answer))) w'
      ]
    ]
