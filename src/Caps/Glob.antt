-- ===== src/Caps/Glob.antt =====
-- pan-cap/src/fs.rs: `glob_match`, of the patterns of `cap.fs.glob`. The indices into the two texts are
-- the texts that are left.
pub mod Laws
use Prim.Native.Char.{Char}
use pan.Prelude.{Bool, true, false, ◌||◌, String, same_char, if◌then◌else◌}

-- `for s in si..=pth.len()`, behind `**`
unfoldable pub any_suffix : (String → Bool) → String → Bool
any_suffix f String.[] = f String.[]
any_suffix f (String.◌∷◌ c s) = f (String.◌∷◌ c s) || any_suffix f s

-- The loop behind `*`. A position at a slash is passed over by `continue`, before the test that would
-- leave the loop there.
unfoldable pub star_suffix : (String → Bool) → String → Bool
star_suffix f String.[] = f String.[]
star_suffix f (String.◌∷◌ c s) =
    let rest = star_suffix f s in if same_char c "/" then rest else f (String.◌∷◌ c s) || rest

unfoldable pub is_end : String → Bool
is_end String.[] = true
is_end (String.◌∷◌ c s) = false

-- One character of the pattern that is no `*`, with what matches the rest.
unfoldable pub step : Char → (String → Bool) → String → Bool
step c f String.[] = false
step c f (String.◌∷◌ d s) =
    let rest = f s in
    if same_char c "?"
    then (if same_char d "/" then false else rest)
    else if same_char d c
    then rest
    else false

unfoldable pub glob_match : String → String → Bool
unfolding any_suffix star_suffix is_end step
glob_match String.[] t = is_end t
glob_match (String.◌∷◌ c String.[]) t =
    if same_char c "*" then star_suffix is_end t else step c is_end t
glob_match (String.◌∷◌ c (String.◌∷◌ d String.[])) t = elim (same_char c "*") [
  | false ↦ step c (λ s. glob_match (String.◌∷◌ d String.[]) s) t
  | true ↦ elim (same_char d "*") [
    | true ↦ any_suffix is_end t
    | false ↦ star_suffix (λ s. glob_match (String.◌∷◌ d String.[]) s) t
  ]
]
glob_match (String.◌∷◌ c (String.◌∷◌ d (String.◌∷◌ e p))) t = elim (same_char c "*") [
  | false ↦ step c (λ s. glob_match (String.◌∷◌ d (String.◌∷◌ e p)) s) t
  | true ↦ elim (same_char d "*") [
    | false ↦ star_suffix (λ s. glob_match (String.◌∷◌ d (String.◌∷◌ e p)) s) t
    | true ↦ elim (same_char e "/") [
      | true ↦ any_suffix (λ s. glob_match p s) t
      | false ↦ any_suffix (λ s. glob_match (String.◌∷◌ e p) s) t
    ]
  ]
]
