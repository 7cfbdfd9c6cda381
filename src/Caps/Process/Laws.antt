-- ===== src/Caps/Process/Laws.antt =====
-- What the program of `cap.shell` is started with.
use pan.Prelude.{◌≡◌, refl, String, List, [], ◌∷◌, map, some, ok}
use pan.Json.{Value, text, get, array, Items, elements}
use pan.Caps.Http.{arg_str}
use pan.Caps.Process.{Programs, all_strings, cmd_args, execute_shell}

all_strings-texts : (ss : List String) → all_strings (map text ss) ≡ ok ss
unfolding all_strings
all_strings-texts [] = refl
all_strings-texts (s ∷ ss) = rw (all_strings-texts ss) refl

-- A program is started once, with exactly the texts of the list of arguments, each as it is.
pub execute_shell-output :
    {W : Type 0} (programs : Programs W) (args : Value) (program : String) (given : List String)
    (items : Items) (w : W)
    → arg_str args "program" ≡ ok program
    → get args "args" ≡ some (array items)
    → elements items ≡ map text given
    → (execute_shell programs "cap.shell.run" args w).1 ≡ (programs.output program given w).1
unfolding execute_shell cmd_args
execute_shell-output programs args program given items w p a e =
    rw (execute_shell, p, a, cmd_args, e, all_strings-texts given) refl
