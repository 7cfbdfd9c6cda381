-- ===== src/Agent/Manifest/Laws.antt =====
-- What a manifest grants, and which manifests are accepted.
use pan.Prelude.{
  ◌≡◌, refl, ◌↔◌, inl, inr, Bool, true, false, String, [], ◌∷◌, Any, subst, arith, Result, ok,
  map_err, and_then-ok, map_err-ok, ok-injective, ap, ◌∙◌, is_blank, ◌⧺◌,
}
use pan.Table.{Table}
use pan.Agent.Manifest.{parse, AgentManifest, prefixes_of, validate, from_toml}

-- Something of the prefixes is something of a family that is switched on.
pub prefixes_of_iff :
    (P : String → Type 0) (grant : Table Bool)
    → Any P (prefixes_of grant) ↔ Any (λ (e : String × Bool). (e.1 ≡ true) × P ("cap." ⧺ e.0)) grant
unfolding prefixes_of
prefixes_of_iff P [] = (λ h. h, λ h. h)
prefixes_of_iff P ((family, true) ∷ rest) =
    let behind = prefixes_of_iff P rest in
    (
      λ h. elim h [ inl p ↦ inl (refl, p) | inr a ↦ inr (behind.0 a) ],
      λ h. elim h [ inl (e, p) ↦ inl p | inr a ↦ inr (behind.1 a) ],
    )
prefixes_of_iff P ((family, false) ∷ rest) =
    let behind = prefixes_of_iff P rest in
    (
      λ h. inr (behind.0 h),
      λ h. elim h [ inl (e, p) ↦ let stuck : false ≡ true = e in cc | inr a ↦ behind.1 a ],
    )

validate-ok :
    {T : Type 0} (m : AgentManifest T)
    → validate m ≡ ok tt
    → (is_blank m.meta.name ≡ false) × (is_blank m.persona.provider ≡ false)
unfolding validate
validate-ok m h = ground arith

-- A text is read as the manifest `m` exactly if the toml crate reads it as `m` and neither the name nor
-- the provider of `m` is blank.
pub from_toml_iff :
    {T : Type 0} (from_str : String → Result String (AgentManifest T)) (content : String)
    (m : AgentManifest T)
    → (from_toml from_str content ≡ ok m) ↔ (
        (from_str content ≡ ok m)
        × ((is_blank m.meta.name ≡ false) × (is_blank m.persona.provider ≡ false)))
unfolding from_toml validate
from_toml_iff from_str content m = (
  λ h.
      let (n, p, q) = and_then-ok (map_err parse (from_str content)) _ h in
      let (u, v, w) = and_then-ok (validate n) _ q in
      let same = ok-injective w in
      let read = map_err-ok parse (from_str content) p in
      let checked : validate m ≡ ok tt = subst (λ k. validate k ≡ ok tt) same v in
      (read ∙ ap ok same, validate-ok m checked),
  λ (p, (q, r)). rw p (rw (q, r, validate) refl),
)
