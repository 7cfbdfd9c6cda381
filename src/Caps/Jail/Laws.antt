-- ===== src/Caps/Jail/Laws.antt =====
-- Where a path of `cap.fs` leads.
use mathlib.Core.List.{append_assoc}
use pan.Prelude.{
  ◌≡◌, refl, sym, ap, ◌∙◌, All, false, String, List, [], ◌∷◌, ◌++◌, Option, none, some, ok, arith,
  bind, Bool-cases, inl, inr, and_then-ok, ok-injective,
}
use pan.Caps.Jail.{
  Component, normal, cur_dir, parent_dir, root_dir, prefix, Paths, check_components, jail,
}

-- The directories passed through, the innermost first: `..` leaves one, and there may be none to leave.
unfoldable pub walk : List Component → List String → Option (List String)
walk [] at = some at
walk (normal name ∷ cs) at = walk cs (name ∷ at)
walk (cur_dir ∷ cs) at = walk cs at
walk (parent_dir ∷ cs) [] = none
walk (parent_dir ∷ cs) (d ∷ at) = walk cs at
walk (root_dir ∷ cs) at = walk cs []
walk (prefix ∷ cs) at = walk cs []

walk-append :
    (cs ds : List Component) (at : List String) → walk (cs ++ ds) at ≡ bind (walk cs at) (walk ds)
unfolding walk
walk-append [] ds at = refl
walk-append (normal name ∷ cs) ds at = walk-append cs ds (name ∷ at)
walk-append (cur_dir ∷ cs) ds at = walk-append cs ds at
walk-append (parent_dir ∷ cs) ds [] = refl
walk-append (parent_dir ∷ cs) ds (d ∷ at) = walk-append cs ds at
walk-append (root_dir ∷ cs) ds at = walk-append cs ds []
walk-append (prefix ∷ cs) ds at = walk-append cs ds []

-- The components that name something: all but the `.`.
unfoldable pub names : List Component → List Component
names [] = []
names (cur_dir ∷ cs) = names cs
names (normal name ∷ cs) = normal name ∷ names cs
names (parent_dir ∷ cs) = parent_dir ∷ names cs
names (root_dir ∷ cs) = root_dir ∷ names cs
names (prefix ∷ cs) = prefix ∷ names cs

walk-names : (cs : List Component) (at : List String) → walk (names cs) at ≡ walk cs at
unfolding names walk
walk-names [] at = refl
walk-names (cur_dir ∷ cs) at = walk-names cs at
walk-names (normal name ∷ cs) at = walk-names cs (name ∷ at)
walk-names (parent_dir ∷ cs) [] = refl
walk-names (parent_dir ∷ cs) (d ∷ at) = walk-names cs at
walk-names (root_dir ∷ cs) at = walk-names cs []
walk-names (prefix ∷ cs) at = walk-names cs []

bind-names :
    (o : Option (List String)) (ds : List Component) → bind o (walk (names ds)) ≡ bind o (walk ds)
bind-names none ds = refl
bind-names (some at) ds = walk-names ds at

walk-joined :
    (cs ds js : List Component) (at : List String)
    → names js ≡ names cs ++ names ds
    → walk js at ≡ bind (walk cs at) (walk ds)
walk-joined cs ds js at e =
    sym (walk-names js at)
    ∙ ap (λ xs. walk xs at) e
    ∙ walk-append (names cs) (names ds) at
    ∙ ap (λ o. bind o (walk (names ds))) (walk-names cs at)
    ∙ bind-names (walk cs at) ds

-- Neither a root nor a prefix.
abbrev pub IsInner : Component → Type 0
IsInner root_dir = ⊥
IsInner prefix = ⊥
IsInner _ = Unit

check_components-IsInner :
    (rel : String) (cs : List Component) → check_components rel cs ≡ ok tt → All IsInner cs
unfolding check_components
check_components-IsInner rel [] h = tt
check_components-IsInner rel (normal name ∷ cs) h = (tt, check_components-IsInner rel cs h)
check_components-IsInner rel (cur_dir ∷ cs) h = (tt, check_components-IsInner rel cs h)
check_components-IsInner rel (parent_dir ∷ cs) h = absurd (ground arith)
check_components-IsInner rel (root_dir ∷ cs) h = absurd (ground arith)
check_components-IsInner rel (prefix ∷ cs) h = absurd (ground arith)

walk-below :
    (rel : String) (cs : List Component) (at : List String)
    → check_components rel cs ≡ ok tt
    → (below : List String) × (walk cs at ≡ some (below ++ at))
unfolding check_components walk
walk-below rel [] at h = ([], refl)
walk-below rel (normal name ∷ cs) at h =
    let (below, e) = walk-below rel cs (name ∷ at) h in
    (below ++ name ∷ [], e ∙ ap some (sym (append_assoc below (name ∷ []) at)))
walk-below rel (cur_dir ∷ cs) at h = walk-below rel cs at h
walk-below rel (parent_dir ∷ cs) at h = absurd (ground arith)
walk-below rel (root_dir ∷ cs) at h = absurd (ground arith)
walk-below rel (prefix ∷ cs) at h = absurd (ground arith)

-- A path that the jail lets through leads to the root's directory or to one below it, name by name,
-- where joining a relative path without a root or a prefix puts its components behind those of the root, `.` not counted.
pub jail-below :
    (paths : Paths) (root rel path : String) (home : List String)
    → ((r : String)
        → paths.is_absolute r ≡ false
        → All IsInner (paths.components r)
        → names (paths.components (paths.join root r))
          ≡ names (paths.components root) ++ names (paths.components r))
    → walk (paths.components root) [] ≡ some home
    → jail paths root rel ≡ ok path
    → (below : List String) × (walk (paths.components path) [] ≡ some (below ++ home))
unfolding jail
jail-below paths root rel path home joins w h = elim (Bool-cases (paths.is_absolute rel)) [
  | inl a ↦ absurd (ground arith)
  | inr a ↦
      let (u, c, e) =
        and_then-ok (check_components rel (paths.components rel)) _ (rw (jail, a) at h) in
      let (below, b) = walk-below rel (paths.components rel) home c in
      (
        below,
        ap (λ p. walk (paths.components p) []) (sym (ok-injective e))
            ∙ walk-joined (paths.components root) (paths.components rel) _ []
                (joins rel a (check_components-IsInner rel _ c))
            ∙ ap (λ o. bind o (walk (paths.components rel))) w
            ∙ b,
      )
]
