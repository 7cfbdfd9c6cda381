-- ===== src/Caps/Process.antt =====
-- pan-cap/src/shell.rs and pan-cap/src/format.rs: the two capabilities that start programs. Starting one and
-- waiting for it is an argument, over the world.
pub mod Laws
use pan.Prelude.{
  ℕ, Bool, true, false, ◌||◌, String, List, [], ◌∷◌, Option, none, some, Result, ok, err, and_then,
  map_err, map_ok, ok_or, bind, str_eq, any, if◌then◌else◌, ◌⧺◌,
}
use pan.Json.{Value, null, boolean, number, text, array, object, elements, field, end, get, as_str}
use pan.Caps.Http.{arg_str}

-- An exit code is a value as serde_json writes it: `null`, if there is none.
pub record Output : Type 0 where
  pub code : Value
  pub stdout : String
  pub stderr : String

-- `Command::output` with the program and its arguments, and `Command::status` with whether it succeeded
-- and how it is printed; `extension` of a path.
pub record Programs (W : Type 0) : Type 0 where
  pub output : String → List String → W → Result String Output × W
  pub status : String → List String → W → Result String (Bool × String) × W
  pub extension : String → Option String

unfoldable pub all_strings : List Value → Result String (List String)
all_strings [] = ok []
all_strings (v ∷ vs) =
    and_then (ok_or "each `args` entry must be a string" (as_str v))
      λ s. map_ok (λ ss. s ∷ ss) (all_strings vs)

-- `args`, an optional list of texts
unfoldable pub cmd_args : Option Value → Result String (List String)
unfolding all_strings
cmd_args none = ok []
cmd_args (some null) = ok []
cmd_args (some (array items)) = all_strings (elements items)
cmd_args (some (boolean b)) = err "`args` must be an array of strings"
cmd_args (some (number n)) = err "`args` must be an array of strings"
cmd_args (some (text s)) = err "`args` must be an array of strings"
cmd_args (some (object fs)) = err "`args` must be an array of strings"

abbrev pub one_of : List String → String → Bool
one_of names e = any (str_eq e) names

-- The formatter of an extension.
unfoldable pub formatter_of : String → Option String
formatter_of e =
    if str_eq e "rs"
    then some "rustfmt"
    else if one_of
        ("js" ∷ "ts" ∷ "jsx" ∷ "tsx" ∷ "json" ∷ "jsonc" ∷ "md" ∷ "yaml" ∷ "yml" ∷ "css" ∷ "scss"
          ∷ "less" ∷ [])
        e
    then some "npx prettier --write"
    else if str_eq e "py"
    then some "ruff format"
    else if str_eq e "go"
    then some "gofmt"
    else if str_eq e "toml"
    then some "taplo format"
    else none

module _ {W : Type 0} (programs : Programs W) where
  unfoldable pub execute_shell : String → Value → W → Result String Value × W
  unfolding arg_str cmd_args
  execute_shell capability args w = elim (str_eq capability "cap.shell.run") [
    | false ↦ (err ("cap.shell has no `" ⧺ (capability ⧺ "`")), w)
    | true ↦ elim (arg_str args "program") [
      | err e ↦ (err e, w)
      | ok program ↦ elim (cmd_args (get args "args")) [
        | err e ↦ (err e, w)
        | ok given ↦
            let (r, w') = programs.output program given w in
            (
              map_ok
                  (λ (o : Output). object (
                    field "code" o.code
                      (field "stderr" (text o.stderr) (field "stdout" (text o.stdout) end))))
                  (map_err (λ e. "spawning `" ⧺ (program ⧺ ("`: " ⧺ e))) r),
              w',
            )
      ]
    ]
  ]

  -- The line that is given to `sh -c`.
  unfoldable pub run_formatter : String → String → W → Result String Value × W
  run_formatter formatter path w =
      let (r, w') = programs.status "sh" ("-c" ∷ (formatter ⧺ (" " ⧺ path)) ∷ []) w in
      (
        and_then (map_err (λ e. "failed to run formatter: " ⧺ e) r) λ (s : Bool × String).
            if s.0
            then ok (object (field "formatted" (text path) end))
            else err (formatter ⧺ (" " ⧺ (path ⧺ (" exited with " ⧺ s.1)))),
        w',
      )

  unfoldable pub execute_format : String → Value → W → Result String Value × W
  unfolding arg_str formatter_of run_formatter
  execute_format capability args w = elim (arg_str args "path") [
    | err e ↦ (err e, w)
    | ok path ↦ elim (bind (programs.extension path) formatter_of) [
      | none ↦ (err ("no formatter registered for `" ⧺ (path ⧺ "`")), w)
      | some formatter ↦ run_formatter formatter path w
    ]
  ]
