-- ===== src/Lifecycle/Laws.antt =====
-- What `start` guarantees: which phases ran when it succeeds, and what is cleaned up when it fails.
use pan.Prelude.{
  ◌≡◌, refl, subst, ◌↔◌, sym, ap, false, String, List, [], ◌∷◌, none, any, arith, inl, inr, Result,
  ok, err, Result-cases, Option-cases, Bool-cases, str_eq, eq_iff, All, ◌≢◌,
}
use mathlib.Core.List.{reverse}
use pan.Lifecycle.{
  PluginError, LifecycleError, conflict, Plugin, Lifecycle, first_conflict, each, provision,
  validate, run, clean_all, cleanup, phases, start,
}

any_none :
    (x : String) (seen : List String)
    → (any (λ id. str_eq id x) seen ≡ false) ↔ All (λ id. id ≢ x) seen
any_none x [] = ((λ h. tt), (λ h. refl))
any_none x (y ∷ ys) =
    let (to, from) = any_none x ys in
    let (same, equal) = eq_iff y x in
    elim (Bool-cases (str_eq y x)) [
      | inl e ↦ ((λ h. ground arith), (λ h. absurd (h.0 (same e))))
      | inr e ↦ (
        (λ h. ((λ q. let z = equal q in ground arith), to (ground arith))),
        (λ h. let z = from h.1 in ground arith),
      )
    ]

module _ {W : Type 0} where
  -- Every plugin, in order, passes the phase, each in the world that the one before it left.
  abbrev pub Pass :
      (Plugin W → W → Result PluginError (Unit {0}) × W) → List (Plugin W) → W → W → Type 0
  Pass phase [] w w' = w ≡ w'
  Pass phase (p ∷ ps) w w' = ((phase p w).0 ≡ ok tt) × Pass phase ps (phase p w).1 w'

  each_iff :
      (phase : Plugin W → W → Result PluginError (Unit {0}) × W) (ps : List (Plugin W)) (w w' : W)
      → (each phase ps w ≡ (ok tt, w')) ↔ Pass phase ps w w'
  unfolding each
  each_iff phase [] w w' =
      (λ h. ap (λ (r : Result LifecycleError (Unit {0}) × W). r.1) h, λ h i. (ok tt, h i))
  each_iff phase (p ∷ ps) w w' =
      let (to, from) = each_iff phase ps (phase p w).1 w' in
      elim (Result-cases (phase p w).0) [
        | inl (u, e) ↦ rw (e, each) ((λ h. (refl, to h)), (λ h. from h.1))
        | inr (x, e) ↦ rw (e, each) ((λ h. ground arith), (λ h. ground arith))
      ]

  valid_iff :
      (ps : List (Plugin W)) (w w' : W)
      → Pass (λ p u. (p.validate u, u)) ps w w' ↔ (All (λ p. p.validate w ≡ ok tt) ps × (w ≡ w'))
  valid_iff [] w w' = ((λ h. (tt, h)), (λ h. h.1))
  valid_iff (p ∷ ps) w w' =
      let (to, from) = valid_iff ps w w' in
      ((λ h. let r = to h.1 in ((h.0, r.0), r.1)), (λ h. (h.0.0, from (h.0.1, h.1))))

  -- No id of `ps` stands in `seen`, and no two plugins have the same id.
  abbrev pub Fresh : List String → List (Plugin W) → Type 0
  Fresh seen [] = Unit
  Fresh seen (p ∷ ps) = All (λ id. id ≢ p.id) seen × Fresh (p.id ∷ seen) ps

  first_conflict_iff :
      (seen : List String) (ps : List (Plugin W)) → (first_conflict seen ps ≡ none) ↔ Fresh seen ps
  unfolding first_conflict
  first_conflict_iff seen [] = ((λ h. tt), (λ h. refl))
  first_conflict_iff seen (p ∷ ps) =
      let (to, from) = first_conflict_iff (p.id ∷ seen) ps in
      let (old, new) = any_none p.id seen in
      elim (Bool-cases (any (λ id. str_eq id p.id) seen)) [
        | inl e ↦ ((λ h. ground arith), (λ h. let z = new h.0 in ground arith))
        | inr e ↦ ((λ h. (old e, to (ground arith))), (λ h. let z = from h.1 in ground arith))
      ]

  provision_iff :
      (lc : Lifecycle W) (w w' : W)
      → (provision lc w ≡ (ok tt, w'))
        ↔ (Fresh [] lc.plugins × Pass (λ p. p.provision) lc.plugins w w')
  unfolding provision
  provision_iff lc w w' =
      let (fresh, free) = first_conflict_iff [] lc.plugins in
      let (to, from) = each_iff (λ p. p.provision) lc.plugins w w' in
      elim (Option-cases (first_conflict [] lc.plugins)) [
        | inl e ↦ rw (e, provision) ((λ h. (fresh e, to h)), (λ h. from h.1))
        | inr (id, e) ↦ ((λ h. ground arith), (λ h. let z = free h.0 in ground arith))
      ]

  -- All three phases passed: the ids are distinct, all plugins were provisioned in order, all were
  -- valid in the world that this left, and all were run in order.
  pub record Started (lc : Lifecycle W) (w w' : W) : Type 0 where
    pub fresh : Fresh [] lc.plugins
    pub provisioned : W
    pub all_provisioned : Pass (λ p. p.provision) lc.plugins w provisioned
    pub all_valid : All (λ p. p.validate provisioned ≡ ok tt) lc.plugins
    pub all_run : Pass (λ p. p.run) lc.plugins provisioned w'

  validate_iff :
      (lc : Lifecycle W) (w w' : W)
      → (validate lc w ≡ (ok tt, w')) ↔ (All (λ p. p.validate w ≡ ok tt) lc.plugins × (w ≡ w'))
  unfolding validate
  validate_iff lc w w' =
      let (to, from) = each_iff (λ p u. (p.validate u, u)) lc.plugins w w' in
      let (out, back) = valid_iff lc.plugins w w' in ((λ h. out (to h)), (λ h. from (back h)))

  run_iff :
      (lc : Lifecycle W) (w w' : W) → (run lc w ≡ (ok tt, w')) ↔ Pass (λ p. p.run) lc.plugins w w'
  unfolding run
  run_iff lc w w' = each_iff (λ p. p.run) lc.plugins w w'

  phases-Started : (lc : Lifecycle W) (w w' : W) → phases lc w ≡ (ok tt, w') → Started lc w w'
  unfolding phases
  phases-Started lc w w' h = elim (Result-cases (provision lc w).0) [
    | inr (x, e) ↦ ground arith
    | inl (u, e) ↦
        let w1 = (provision lc w).1 in
        let w2 = (validate lc w1).1 in
        let provisioned = (provision_iff lc w w1).0 (λ i. (e i, w1)) in
        elim (Result-cases (validate lc w1).0) [
          | inr (x, f) ↦ ground arith
          | inl (v, f) ↦
              let valid = (validate_iff lc w1 w2).0 (λ i. (f i, w2)) in
              let ran : run lc w2 ≡ (ok tt, w') = ground arith in
              record {
                fresh = provisioned.0;
                provisioned = w1;
                all_provisioned = provisioned.1;
                all_valid = valid.0;
                all_run =
                    (run_iff lc w1 w').0 (subst (λ x. run lc x ≡ (ok tt, w')) (sym valid.1) ran);
              }
        ]
  ]

  Started-phases : (lc : Lifecycle W) (w w' : W) → Started lc w w' → phases lc w ≡ (ok tt, w')
  unfolding phases
  Started-phases lc w w' s =
      let w1 = s.provisioned in
      let p = (provision_iff lc w w1).1 (s.fresh, s.all_provisioned) in
      let v = (validate_iff lc w1 w1).1 (s.all_valid, refl) in
      let r = (run_iff lc w1 w').1 s.all_run in ground arith

  -- `start` succeeds exactly if the ids are distinct and every plugin passes every phase, phase by
  -- phase and in the order of registration, and then nothing is cleaned up.
  pub start_iff : (lc : Lifecycle W) (w w' : W) → (start lc w ≡ (ok tt, w')) ↔ Started lc w w'
  unfolding start
  start_iff lc w w' = elim (Result-cases (phases lc w).0) [
    | inl (u, e) ↦ (
      (λ h. phases-Started lc w w' (ground arith)),
      (λ h. let z = Started-phases lc w w' h in ground arith),
    )
    | inr (x, e) ↦ ((λ h. ground arith), (λ h. let z = Started-phases lc w w' h in ground arith))
  ]

  -- Where two plugins have the same id, `start` fails with a conflict, no plugin was provisioned, and
  -- yet all of them are cleaned up, from the last to the first.
  pub start_duplicate :
      (lc : Lifecycle W) (w : W)
      → ¬ Fresh [] lc.plugins
      → (id : String) × (start lc w
          ≡ (err (conflict (record { id = id })), clean_all (reverse lc.plugins) w))
  unfolding start phases provision cleanup
  start_duplicate lc w n = elim (Option-cases (first_conflict [] lc.plugins)) [
    | inl e ↦ absurd (n ((first_conflict_iff [] lc.plugins).0 e))
    | inr (id, e) ↦ (id, ground arith)
  ]
