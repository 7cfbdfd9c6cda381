-- ===== src/Examples/Paths.antt =====
-- The paths of a Unix, as the standard library takes them apart: empty parts and `.` vanish, but for a
-- `.` that a relative path begins with.
use package.text.Mathlib.TextLemmas.{cons-append, nil-append}
use pan.Prelude.{
  ◌≡◌, refl, sym, false, String, List, [], ◌∷◌, ◌++◌, some, str_eq, eq_iff, same_char,
  starts_with_char, ends_with, ◌||◌, if◌then◌else◌, ◌⧺◌, ap, ◌∙◌, All, Bool-cases, inl, inr,
}
use pan.Caps.Jail.{Component, normal, cur_dir, parent_dir, root_dir, Paths, jail}
use pan.Caps.Jail.Laws.{walk, names, IsInner, jail-below}

abbrev component : String → List Component
component s =
    if str_eq s ""
    then []
    else if str_eq s "."
    then []
    else if str_eq s ".."
    then parent_dir ∷ []
    else normal s ∷ []

-- The text before the first slash, and the components behind it.
abbrev parts : String → String × List Component
parts String.[] = ("", [])
parts (String.◌∷◌ c s) =
    let (first, later) = parts s in
    if same_char c "/" then ("", component first ++ later) else (String.◌∷◌ c first, later)

abbrev components : String → List Component
components s =
    let (first, later) = parts s in
    if starts_with_char s "/"
    then root_dir ∷ later
    else if str_eq first "."
    then cur_dir ∷ later
    else component first ++ later

abbrev paths : Paths
paths = record {
  is_absolute = λ r. starts_with_char r "/";
  components = components;
  join = λ root rel.
      if starts_with_char rel "/" || (str_eq root "")
      then rel
      else if ends_with root "/"
      then root ⧺ rel
      else root ⧺ ("/" ⧺ rel);
}

consed : (r : String) → "r" ⧺ ("/" ⧺ r) ≡ String.◌∷◌ "r" (String.◌∷◌ "/" r)
consed r =
    cons-append "r" "" ("/" ⧺ r)
    ∙ ap (String.◌∷◌ "r") (nil-append ("/" ⧺ r) ∙ cons-append "/" "" r)
    ∙ ap (λ s. String.◌∷◌ "r" (String.◌∷◌ "/" s)) (nil-append r)

named_dot : (later : List Component) → names (component "." ++ later) ≡ names (cur_dir ∷ later)
unfolding names
named_dot later = refl

behind_root :
    (first : String) (later : List Component)
    → names (component first ++ later)
      ≡ names (if str_eq first "." then cur_dir ∷ later else component first ++ later)
behind_root first later = elim (Bool-cases (str_eq first ".")) [
  | inr n ↦ ap (λ b. names (if b then cur_dir ∷ later else component first ++ later)) (sym n)
  | inl y ↦
      ap (λ s. names (component s ++ later)) ((eq_iff first ".").0 y)
      ∙ named_dot later
      ∙ ap (λ b. names (if b then cur_dir ∷ later else component first ++ later)) (sym y)
]

joins :
    (r : String)
    → paths.is_absolute r ≡ false
    → All IsInner (paths.components r)
    → names (paths.components (paths.join "r" r))
      ≡ names (paths.components "r") ++ names (paths.components r)
unfolding names ends_with
joins r a i = rw (a, consed r) (ap (λ cs. normal "r" ∷ cs) (behind_root (parts r).0 (parts r).1))

jail-below_example :
    (below : List String) × (walk (paths.components "r/./a//b") [] ≡ some (below ++ "r" ∷ []))
unfolding walk jail ends_with
jail-below_example = jail-below paths "r" "./a//b" "r/./a//b" ("r" ∷ []) joins refl refl
