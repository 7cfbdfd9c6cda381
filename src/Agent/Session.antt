-- ===== src/Agent/Session.antt =====
-- pan-agent/src/session.rs and context.rs: what an agent remembers of its turns.
-- The session file is its text; a write that fails leaves it as it is, and the cache is updated all the
-- same. A poisoned lock is not modelled.
pub mod Laws
use pan.Prelude.{
  ℕ, ◌&&◌, same_char, starts_with_char, ◌-◌, ◌*◌, Bool, String, List, [], ◌∷◌, ◌++◌, Option, none,
  some, length, drop, ltb, if◌then◌else◌, str_eq, not, retain, map, ◌⧺◌,
}
use pan.Json.{Value, text, object, field, end}
use pan.Schema.{Goal, utterance, Context, with_fragment}
use pan.Loop.{RunReport}

pub record SessionTurn : Type 0 where
  pub ts : ℕ
  pub goal_id : String
  pub objective : String
  pub expressed : List String
  pub results : List (String × Value)

pub record SessionStore : Type 0 where
  pub cached : List SessionTurn
  pub max_turns : ℕ

-- `while list.len() > n { list.remove(0); }`
unfoldable pub trim_to {ℓ} : {A : Type ℓ} → ℕ → List A → List A
trim_to n [] = []
trim_to n (x ∷ xs) = let rest = trim_to n xs in if ltb n (length (x ∷ xs)) then rest else x ∷ xs

-- `str::lines`: a final line break ends the last line, and `\r` before a line break is dropped.
unfoldable pub lines : String → List String
lines String.[] = []
lines (String.◌∷◌ c s) =
    let rest = lines s in
    if same_char c "\n"
    then "" ∷ rest
    else if same_char c "\r" && starts_with_char s "\n"
    then rest
    else (elim rest [ [] ↦ String.◌∷◌ c "" ∷ [] | l ∷ ls ↦ String.◌∷◌ c l ∷ ls ])

-- What serde_json does: the line of a turn, and the turn of a line.
pub record Lines : Type 0 where
  pub to_line : SessionTurn → Option String
  pub from_line : String → Option SessionTurn

unfoldable pub read_lines : Lines → List String → List SessionTurn
read_lines io [] = []
read_lines io (l ∷ ls) =
    let rest = read_lines io ls in elim (io.from_line l) [ none ↦ rest | some t ↦ t ∷ rest ]

-- `none` where the file cannot be read.
unfoldable pub read_file : Lines → Option String → List SessionTurn
unfolding read_lines lines
read_file io none = []
read_file io (some content) = read_lines io (lines content)

unfoldable pub new : Lines → Option String → SessionStore
unfolding read_file
new io file = record { cached = read_file io file; max_turns = 100 }

unfoldable pub with_max_turns : SessionStore → ℕ → SessionStore
with_max_turns s n = record s { max_turns = n }

-- `now` is the clock's second.
unfoldable pub turn_of : ℕ → Goal → List String → List (String × Value) → SessionTurn
turn_of now goal expressed results = record {
  ts = now;
  goal_id = goal.id;
  objective = goal.objective;
  expressed = expressed;
  results = results;
}

unfoldable pub written : Option String → Option String → Option String
written file none = file
written none (some line) = some (line ⧺ "\n")
written (some content) (some line) = some (content ⧺ (line ⧺ "\n"))

-- The store and its file; `writable` is whether the file can be opened and written.
unfoldable pub append_turn :
    Lines → Bool → SessionTurn → SessionStore × Option String → SessionStore × Option String
unfolding trim_to written
append_turn io writable turn (s, file) = (
  record s { cached = trim_to s.max_turns (s.cached ++ turn ∷ []) },
  if writable then written file (io.to_line turn) else file,
)

unfoldable pub append :
    Lines
    → ℕ
    → Bool
    → Goal
    → List String
    → List (String × Value)
    → SessionStore × Option String
    → SessionStore × Option String
unfolding turn_of append_turn
append io now writable goal expressed results =
    append_turn io writable (turn_of now goal expressed results)

unfoldable pub turns : SessionStore → List SessionTurn
turns s = drop (length s.cached - s.max_turns) s.cached
