-- ===== src/Governor/Glob.antt =====
-- pan-core/src/pipeline.rs: `glob_match_simple` and `glob_match_rec`; pan-cap/src/fs.rs has the
-- same two functions (`glob_match`). The indices `pi` and `si` into the character arrays are the
-- rests of the pattern and of the path: `pi == pat.len()` is the empty rest.
pub mod Laws
use Prim.Native.Char.{Char}
use pan.Prelude.{◌≡◌, refl, Bool, true, false, ◌||◌, ◌&&◌, not, String, same_char, if◌then◌else◌}

abbrev pub is_empty : String → Bool
is_empty String.[] = true
is_empty (String.◌∷◌ c s) = false

-- `for s in si..=pth.len() { if glob_match_rec(pat, pth, next_pi, s) { return true; } } false`
pub any_rest : (String → Bool) → String → Bool
any_rest try String.[] = try String.[]
any_rest try (String.◌∷◌ c s) = try (String.◌∷◌ c s) || any_rest try s

-- The same loop under `*`: a position where the path has a `/` is skipped by `continue`, so the
-- `break` behind it is never reached.
pub any_rest_at_no_slash : (String → Bool) → String → Bool
any_rest_at_no_slash try String.[] = try String.[]
any_rest_at_no_slash try (String.◌∷◌ c s) =
    if same_char c "/"
    then any_rest_at_no_slash try s
    else try (String.◌∷◌ c s) || any_rest_at_no_slash try s

-- The arms `'?'` and `c` of the match, with the rest of the pattern as a function.
pub one_char : Char → (String → Bool) → String → Bool
one_char c rest String.[] = false
one_char c rest (String.◌∷◌ d s) =
    (if same_char c "?" then not (same_char d "/") else same_char d c) && rest s

unfoldable pub glob_match_rec : String → String → Bool
unfolding any_rest any_rest_at_no_slash one_char
glob_match_rec String.[] path = is_empty path
glob_match_rec (String.◌∷◌ c String.[]) path =
    if same_char c "*" then any_rest_at_no_slash is_empty path else one_char c is_empty path
glob_match_rec (String.◌∷◌ c (String.◌∷◌ d String.[])) path =
    let rest = λ (s : String). glob_match_rec (String.◌∷◌ d String.[]) s in
    if same_char c "*"
    then (if same_char d "*" then any_rest is_empty path else any_rest_at_no_slash rest path)
    else one_char c rest path
glob_match_rec (String.◌∷◌ c (String.◌∷◌ d (String.◌∷◌ e p))) path =
    let rest = λ (s : String). glob_match_rec (String.◌∷◌ d (String.◌∷◌ e p)) s in
    let behind_stars = λ (s : String). glob_match_rec (String.◌∷◌ e p) s in
    let behind_slash = λ (s : String). glob_match_rec p s in
    if same_char c "*"
    then (if same_char d "*"
        then any_rest (if same_char e "/" then behind_slash else behind_stars) path
        else any_rest_at_no_slash rest path)
    else one_char c rest path

unfoldable pub glob_match_simple : String → String → Bool
unfolding glob_match_rec
glob_match_simple pattern path = glob_match_rec pattern path

suffix_star : glob_match_simple "*.rs" "main.rs" ≡ true
unfolding glob_match_simple
suffix_star = refl

two_stars : glob_match_simple "src/**/lib.rs" "src/a/b/lib.rs" ≡ true
unfolding glob_match_simple
two_stars = refl

question : glob_match_simple "a?c" "a/c" ≡ false
unfolding glob_match_simple
question = refl

star_slash : glob_match_simple "*/lib.rs" "src/lib.rs" ≡ false
unfolding glob_match_simple
star_slash = refl

star_crosses : glob_match_simple "src*" "src/lib.rs" ≡ true
unfolding glob_match_simple
star_crosses = refl
