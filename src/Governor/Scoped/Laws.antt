-- ===== src/Governor/Scoped/Laws.antt =====
-- Which effects a `ScopedGovernor` allows, said without its code.
use mathlib.Core.Bool.{false≢true}
use mathlib.Core.Option.{some-injective}
use text.Mathlib.TextEquality.{Char-path}
use text.Mathlib.TextLemmas.{cons-append, nil-append}
use pan.Prelude.{
  subst, ◌≡◌, ◌≢◌, refl, sym, ap, ◌∙◌, ◌⊎◌, inl, inr, ◌↔◌, true, false, String, List, some, arith,
  any, Any, any_iff, or_cases, or_true, str_eq, eq_iff, eq_refl, Option-cases, Bool-cases, ==_iff,
  strip_prefix, strip_prefix-append, strip_prefix-append_self, starts_with_char, ◌⧺◌,
}
use pan.Json.{Value}
use pan.Schema.{Scope}
use pan.Table.{lookup, lookup-insert}
use pan.Governor.Defs.{allow}
use pan.Governor.Scoped.{prefix_matches, ScopedGovernor, grant, judge, scoped}

-- `capability` is `prefix` itself or a dotted descendant of it.
abbrev pub Covers : String → String → Type 0
Covers capability prefix =
    (capability ≡ prefix) ⊎ ((rest : String) × (capability ≡ prefix ⧺ ("." ⧺ rest)))

dot_first :
    (rest : String) → starts_with_char rest "." ≡ true → (tail : String) × (rest ≡ "." ⧺ tail)
dot_first String.[] h = let stuck : false ≡ true = h in cc
dot_first (String.◌∷◌ c tail) h =
    (tail, rw (Char-path c "." ((==_iff _ _).0 h)) (rw (cons-append "." "" tail) (rw nil-append)))

-- `prefix_matches` decides `Covers`.
pub prefix_matches_iff :
    (prefix capability : String)
    → (prefix_matches prefix capability ≡ true) ↔ Covers capability prefix
unfolding prefix_matches
prefix_matches_iff prefix capability = (to, from)
  where
    dotted :
        (rest : String)
        → capability ≡ prefix ⧺ rest
        → starts_with_char rest "." ≡ true
        → Covers capability prefix
    dotted rest s d = let (tail, e) = dot_first rest d in inr (tail, s ∙ ap (λ r. prefix ⧺ r) e)

    to : prefix_matches prefix capability ≡ true → Covers capability prefix
    to h = elim (or_cases (str_eq capability prefix) _ h) [
      | inl e ↦ inl ((eq_iff capability prefix).0 e)
      | inr d ↦ elim (Option-cases (strip_prefix prefix capability)) [
        | inl n ↦ let stuck : false ≡ true = rw n at d in cc
        | inr (rest, s) ↦ dotted rest (strip_prefix-append prefix capability rest s) (rw s at d)
      ]
    ]

    from : Covers capability prefix → prefix_matches prefix capability ≡ true
    from (inl e) = rw e (rw (eq_refl prefix))
    from (inr (rest, e)) = rw e (
        rw (strip_prefix-append_self prefix ("." ⧺ rest))
          (rw (cons-append "." "" rest) (or_true _)))

-- `origin` has a grant of a prefix that covers `capability`.
abbrev pub IsGranted : ScopedGovernor → String → String → Type 0
IsGranted g origin capability =
    (prefixes : List String) × (lookup origin g.grants ≡ some prefixes)
    × Any (λ p. Covers capability p) prefixes

any_granted :
    (capability : String) (prefixes : List String)
    → (any (λ p. prefix_matches p capability) prefixes ≡ true)
      ↔ Any (λ p. Covers capability p) prefixes
any_granted capability prefixes =
    any_iff (λ p. prefix_matches p capability) prefixes λ p. prefix_matches_iff p capability

pub judge_allows_iff :
    (g : ScopedGovernor) (scope : Scope) (capability : String)
    → (judge g scope capability ≡ allow) ↔ IsGranted g scope.origin capability
unfolding judge
judge_allows_iff g scope capability = (
  λ h. elim (Option-cases (lookup scope.origin g.grants)) [
    | inl e ↦ ground arith
    | inr (ps, e) ↦ (ps, e, (any_granted capability ps).0 (ground arith))
  ],
  λ granted.
      let matched = (any_granted capability granted.0).1 granted.2 in ground (arith, granted.1),
)

-- The governor allows exactly what is granted to the origin; it reads neither the arguments nor the
-- world, and leaves the world as it is.
pub govern_allows_iff :
    {W : Type 0} (g : ScopedGovernor) (scope : Scope) (capability : String) (args : Value) (w : W)
    → (((scoped g).govern scope capability args w).0 ≡ allow ↔ IsGranted g scope.origin capability)
      × (((scoped g).govern scope capability args w).1 ≡ w)
unfolding scoped
govern_allows_iff g scope capability args w = (judge_allows_iff g scope capability, refl)

module _ (g : ScopedGovernor) (origin other : String) (prefixes : List String) where
  found_new :
      str_eq origin other ≡ true → lookup other (grant g origin prefixes).grants ≡ some prefixes
  unfolding grant
  found_new e = rw (lookup-insert origin other prefixes g.grants) (rw e)

  found_old :
      str_eq origin other ≡ false
      → lookup other (grant g origin prefixes).grants ≡ lookup other g.grants
  unfolding grant
  found_old e = rw (lookup-insert origin other prefixes g.grants) (rw e)

  IsGranted-after :
      (capability : String)
      → IsGranted (grant g origin prefixes) other capability ↔ (
          ((origin ≡ other) × Any (λ p. Covers capability p) prefixes)
          ⊎ ((origin ≢ other) × IsGranted g other capability))
  IsGranted-after capability = (
    λ (qs, e, a). elim (Bool-cases (str_eq origin other)) [
      | inl same ↦
          let same_list : qs ≡ prefixes = some-injective qs prefixes (sym e ∙ found_new same) in
          inl (
            (eq_iff origin other).0 same,
            subst (λ l. Any (λ p. Covers capability p) l) same_list a,
          )
      | inr differ ↦ inr (
        λ p. false≢true (sym differ ∙ (eq_iff origin other).1 p),
        (qs, sym (found_old differ) ∙ e, a),
      )
    ],
    λ h. elim h [
      | inl (p, a) ↦ (prefixes, found_new ((eq_iff origin other).1 p), a)
      | inr (n, (qs, e, a)) ↦ elim (Bool-cases (str_eq origin other)) [
        | inl same ↦ absurd (n ((eq_iff origin other).0 same))
        | inr differ ↦ (qs, found_old differ ∙ e, a)
      ]
    ],
  )

-- An origin that is given the list `prefixes` may reach what they cover and nothing else, whatever it
-- was given before; other origins keep exactly what they had.
pub grant_allows_iff :
    (g : ScopedGovernor) (origin : String) (prefixes : List String) (scope : Scope)
    (capability : String)
    → (judge (grant g origin prefixes) scope capability ≡ allow) ↔ (
        ((origin ≡ scope.origin) × Any (λ p. Covers capability p) prefixes)
        ⊎ ((origin ≢ scope.origin) × IsGranted g scope.origin capability))
grant_allows_iff g origin prefixes scope capability =
    let judged = judge_allows_iff (grant g origin prefixes) scope capability in
    let granted = IsGranted-after g origin scope.origin prefixes capability in
    (λ h. granted.0 (judged.0 h), λ h. judged.1 (granted.1 h))
