-- ===== src/Governor/Path/Laws.antt =====
-- What a `PathGovernor` adds to the governor that it wraps.
use pan.Prelude.{
  ◌≡◌, refl, inl, inr, true, false, String, List, [], ◌∷◌, ◌++◌, ◌⧺◌, ◌&&◌, Bool, none, some, arith,
  Option-cases, Bool-cases,
}
use pan.Json.{Value}
use pan.Schema.{Scope}
use pan.Governor.Glob.Laws.{star_before_slash_fails}
use pan.Governor.Path.{
  PathRule, PathGovernor, applies, check_rules, denial, path_arg, path_governor, deny_path,
}

-- The first rule of the list that applies is `rule`: none before it does.
pub data First (capability p : String) (rule : PathRule) : List PathRule → Type 0 where
  here :
      {rules : List PathRule}
      → applies capability p rule ≡ true
      → First capability p rule (rule ∷ rules)
  later :
      {other : PathRule} {rules : List PathRule}
      → applies capability p other ≡ false
      → First capability p rule rules
      → First capability p rule (other ∷ rules)

check_rules-First :
    (capability p : String) (rule : PathRule) (rules : List PathRule)
    → First capability p rule rules
    → rule.allowed ≡ false
    → check_rules capability p rules ≡ some (denial capability p rule)
unfolding check_rules
check_rules-First capability p rule _ (here a) d = rw (a, d)
check_rules-First capability p rule _ (later {other} {rules} n f) d =
    rw n (check_rules-First capability p rule rules f d)

check_rules-eq-none :
    (capability p : String) (rules : List PathRule)
    → ((rule : PathRule) → First capability p rule rules → rule.allowed ≡ true)
    → check_rules capability p rules ≡ none
unfolding check_rules
check_rules-eq-none capability p [] h = refl
check_rules-eq-none capability p (rule ∷ rules) h = elim (Bool-cases (applies capability p rule)) [
  | inl e ↦ rw (e, h rule (here e))
  | inr e ↦ rw e (check_rules-eq-none capability p rules λ r f. h r (later e f))
]

module _ {W : Type 0} (g : PathGovernor W) (scope : Scope) (capability : String) (args : Value)
    (w : W) where
  -- Where the first rule that applies to the capability and the `path` argument denies, the effect
  -- is denied, and the inner governor is not asked: the world is as before.
  pub govern-First_denies :
      (p : String) (rule : PathRule)
      → path_arg args ≡ some p
      → First capability p rule g.rules
      → rule.allowed ≡ false
      → (path_governor g).govern scope capability args w ≡ (denial capability p rule, w)
  unfolding path_governor
  govern-First_denies p rule e f d = ground (arith, check_rules-First capability p rule g.rules f d)

  -- Where the first rule that applies to the capability and the `path` argument allows, no rule
  -- applies, or there is no such argument, the inner governor decides alone.
  pub govern_delegates :
      ((p : String) (rule : PathRule)
        → path_arg args ≡ some p
        → First capability p rule g.rules
        → rule.allowed ≡ true)
      → (path_governor g).govern scope capability args w ≡ g.inner.govern scope capability args w
  unfolding path_governor
  govern_delegates h = elim (Option-cases (path_arg args)) [
    | inl e ↦ rw (e, path_governor)
    | inr (p, e) ↦
        rw (e, path_governor)
          (rw (check_rules-eq-none capability p g.rules (λ rule f. h p rule e f)))
  ]

module _ (capability p : String) where
  check_rules-append :
      (rules : List PathRule) (rule : PathRule)
      → applies capability p rule ≡ false
      → check_rules capability p (rules ++ rule ∷ []) ≡ check_rules capability p rules
  unfolding check_rules
  check_rules-append [] rule h = rw h
  check_rules-append (r ∷ rules) rule h = rw (check_rules-append rules rule h)

and_false : (a b : Bool) → b ≡ false → (a && b) ≡ false
and_false a b h = ground arith

-- A rule that denies a glob in which a `*` has a `/` behind it, at the pattern's start, denies
-- nothing: the governor judges as it did without the rule.
pub deny_path_star_slash :
    {W : Type 0} (g : PathGovernor W) (prefix q : String) (scope : Scope) (capability : String)
    (args : Value) (w : W)
    → (path_governor (deny_path g prefix ("*/" ⧺ q))).govern scope capability args w
      ≡ (path_governor g).govern scope capability args w
unfolding path_governor deny_path
deny_path_star_slash g prefix q scope capability args w = elim (Option-cases (path_arg args)) [
  | inl e ↦ rw (e, path_governor)
  | inr (p, e) ↦ rw (e, path_governor) (rw (check_rules-append capability p g.rules rule (never p)))
]
  where
    rule : PathRule
    rule = record { capability_prefix = prefix; path_glob = "*/" ⧺ q; allowed = false }

    never : (p : String) → applies capability p rule ≡ false
    never p = and_false _ _ (star_before_slash_fails q p)
