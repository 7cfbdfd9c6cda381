-- ===== src/Governor/Host/Laws.antt =====
-- What a `HostAllowlistGovernor` adds to the governor that it wraps.
use pan.Prelude.{
  ◌≡◌, refl, ◌⊎◌, inl, inr, ◌↔◌, true, false, String, List, [], ◌∷◌, some, arith, ap, ◌∙◌, any, Any,
  any_iff, Option-cases, is_some, strip_prefix,
}
use pan.Json.{Value}
use pan.Schema.{Scope}
use pan.Table.{Table, lookup}
use pan.Governor.Defs.{
  Verdict, allow, deny, require_approval, if_allowed, if_allowed_inv, if_allowed_next,
}
use pan.Governor.Host.{
  HostAllowlistGovernor, host_matches, host_allowed, host_governor, check_host, extract_host,
  url_arg, is_nonempty,
}

nonempty : (hosts : Table (List String)) → ¬ (hosts ≡ []) → is_nonempty hosts ≡ true
nonempty [] h = absurd (h refl)
nonempty (x ∷ hosts) h = refl

-- One of the origin's patterns matches the host.
abbrev pub Listed : Table (List String) → String → String → Type 0
Listed hosts origin host =
    (patterns : List String) × (lookup origin hosts ≡ some patterns)
    × Any (λ p. host_matches p host ≡ true) patterns

host_allowed_iff :
    (hosts : Table (List String)) (scope : Scope) (host : String)
    → (host_allowed hosts scope host ≡ true) ↔ Listed hosts scope.origin host
unfolding host_allowed
host_allowed_iff hosts scope host = (
  λ h. elim (Option-cases (lookup scope.origin hosts)) [
    | inl e ↦ ground arith
    | inr (ps, e) ↦ (ps, e, (matched ps).0 (ground arith))
  ],
  λ l. let found = (matched l.0).1 l.2 in ground (arith, l.1),
)
  where
    matched :
        (ps : List String)
        → (any (λ p. host_matches p host) ps ≡ true) ↔ Any (λ p. host_matches p host ≡ true) ps
    matched ps = any_iff (λ p. host_matches p host) ps λ p. (λ e. e, λ e. e)

check_host-allow_iff :
    (hosts : Table (List String)) (scope : Scope) (capability : String) (args : Value)
    → is_some (strip_prefix "cap.http." capability) ≡ true
    → ¬ (hosts ≡ [])
    → (check_host hosts scope capability args ≡ allow)
      ↔ (host_allowed hosts scope (extract_host (url_arg args)) ≡ true)
unfolding check_host
check_host-allow_iff hosts scope capability args http listed =
    let full = nonempty hosts listed in rw (http, full) (ground arith)

check_host-other :
    (hosts : Table (List String)) (scope : Scope) (capability : String) (args : Value)
    → ((is_some (strip_prefix "cap.http." capability) ≡ false) ⊎ (hosts ≡ []))
    → check_host hosts scope capability args ≡ allow
unfolding check_host
check_host-other hosts scope capability args (inl other) = rw other
check_host-other hosts scope capability args (inr empty) = rw empty (ground arith)

-- With a host list for some origin, a `cap.http.` effect is allowed exactly if the inner governor
-- allows it and one of the patterns of the effect's own origin matches the host of the `url` argument.
pub http_allowed_iff :
    {W : Type 0} (g : HostAllowlistGovernor W) (scope : Scope) (capability : String) (args : Value)
    (w w' : W)
    → is_some (strip_prefix "cap.http." capability) ≡ true
    → ¬ (g.allow_hosts ≡ [])
    → ((host_governor g).govern scope capability args w ≡ (allow, w')) ↔ (
        (g.inner.govern scope capability args w ≡ (allow, w'))
        × Listed g.allow_hosts scope.origin (extract_host (url_arg args)))
unfolding host_governor
http_allowed_iff g scope capability args w w' http listed =
    let answer = g.inner.govern scope capability args w in
    let host = extract_host (url_arg args) in
    let decided = host_allowed_iff g.allow_hosts scope host in
    let check = check_host-allow_iff g.allow_hosts scope capability args http listed in
    (
      λ h.
          let (a, n) = if_allowed_inv answer _ h in
          (λ i. (a i, (n i).1), decided.0 (check.0 (ap (λ (r : Verdict × _). r.0) n))),
      λ h.
          if_allowed_next answer _ (ap (λ (r : Verdict × _). r.0) h.0)
          ∙ (λ i. (check.1 (decided.1 h.1) i, (h.0 i).1)),
    )

-- An effect outside `cap.http.`, and every effect if there is no host list for any origin, is left to
-- the inner governor.
pub other_delegates :
    {W : Type 0} (g : HostAllowlistGovernor W) (scope : Scope) (capability : String) (args : Value)
    (w : W)
    → ((is_some (strip_prefix "cap.http." capability) ≡ false) ⊎ (g.allow_hosts ≡ []))
    → (host_governor g).govern scope capability args w ≡ g.inner.govern scope capability args w
unfolding host_governor
other_delegates {W} g scope capability args w h =
    rw (check_host-other g.allow_hosts scope capability args h)
      (pass (g.inner.govern scope capability args w))
  where
    pass : (v : Verdict × W) → if_allowed v (λ w'. (allow, w')) ≡ v
    pass (allow, w') = refl
    pass (deny r, w') = refl
    pass (require_approval r, w') = refl
