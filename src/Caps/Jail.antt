-- ===== src/Caps/Jail.antt =====
-- pan-cap/src/fs.rs: `jail`, which every operation of `cap.fs` resolves its path with. What the standard
-- library knows of paths is an argument.
pub mod Laws
use pan.Prelude.{Bool, String, List, [], ◌∷◌, ◌++◌, Result, ok, err, and_then, if◌then◌else◌, ◌⧺◌}

-- `std::path::Component`
pub data Component : Type 0 where
  normal : String → Component
  cur_dir parent_dir root_dir prefix : Component

-- `is_absolute`, `components` and `join` of `std::path::Path`
pub record Paths : Type 0 where
  pub is_absolute : String → Bool
  pub components : String → List Component
  pub join : String → String → String

-- The loop over the components.
unfoldable pub check_components : String → List Component → Result String (Unit {0})
check_components rel [] = ok tt
check_components rel (parent_dir ∷ cs) = err ("`..` in `" ⧺ (rel ⧺ "` is not allowed"))
check_components rel (prefix ∷ cs) = err ("`" ⧺ (rel ⧺ "` must be relative"))
check_components rel (root_dir ∷ cs) = err ("`" ⧺ (rel ⧺ "` must be relative"))
check_components rel (cur_dir ∷ cs) = check_components rel cs
check_components rel (normal name ∷ cs) = check_components rel cs

unfoldable pub jail : Paths → String → String → Result String String
unfolding check_components
jail paths root rel =
    if paths.is_absolute rel
    then err ("absolute path `" ⧺ (rel ⧺ "` is not allowed"))
    else and_then (check_components rel (paths.components rel)) λ _. ok (paths.join root rel)
