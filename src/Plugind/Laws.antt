-- ===== src/Plugind/Laws.antt =====
-- What a reload leaves behind, and what the set of plugins finds.
use pan.Prelude.{
  ℕ, suc, ◌+◌, ◌≡◌, refl, sym, ap, ◌∙◌, subst, inl, inr, true, String, List, [], ◌∷◌, some, err,
  Bool-cases, Result-cases, Option-cases, get_elem?, arith, str_eq, eq_iff,
}
use pan.Table.{Table, lookup, insert, lookup-insert, lookup-empty}
use pan.Lifecycle
use pan.Lifecycle.{Plugin}
use pan.Plugind.{
  PluginEntry, index_from, new_set, lookup_entry, PlugindError, reload_in_progress, Discover,
  PluginManager, swap_and_resume, reload,
}

module _ {W : Type 0} where
  swap_and_resume-failed :
      (m : PluginManager W) (found : List (Plugin W) × Table String) (w : W) (e : PlugindError)
      → (swap_and_resume m found w).0 ≡ err e
      → (swap_and_resume m found w).1.reloading ≡ m.reloading
  unfolding swap_and_resume
  swap_and_resume-failed m found w e h = ground arith

  reload-failed :
      (discover : Discover W) (m : PluginManager W) (w : W) (e : PlugindError)
      → (reload discover m w).0 ≡ err e
      → (reload discover m w).1.reloading ≡ true
  unfolding reload
  reload-failed discover m w e h =
      let w' = (discover m.plugin_dirs (Lifecycle.cleanup m.lifecycle w)).1 in
      elim (Bool-cases m.reloading) [
        | inl b ↦ rw (b, reload) refl
        | inr b ↦ elim (Result-cases (discover m.plugin_dirs (Lifecycle.cleanup m.lifecycle w)).0) [
          | inl (found, r) ↦
              let fails : (swap_and_resume (record m { reloading = true }) found w').0 ≡ err e =
                rw (b, r, reload) at h in
              rw (b, r, reload)
                (swap_and_resume-failed (record m { reloading = true }) found w' e fails)
          | inr (x, r) ↦ rw (b, r, reload) refl
        ]
      ]

  reload-blocked :
      (discover : Discover W) (m : PluginManager W) (w : W)
      → m.reloading ≡ true
      → reload discover m w ≡ (err reload_in_progress, m, w)
  unfolding reload
  reload-blocked discover m w e =
      let blocked : reload discover m w
          ≡ (err reload_in_progress, record m { reloading = true }, w) =
        rw (e, reload) refl in
      blocked ∙ ap (λ b. (err reload_in_progress, record m { reloading = b }, w)) (sym e)

  -- A reload that fails, whether in discovery or in the start, is the last: each one after it is refused
  -- as already in progress, and neither the manager nor the world changes again by it.
  pub reload-Stuck :
      (discover again : Discover W) (m : PluginManager W) (w u : W) (e : PlugindError)
      → (reload discover m w).0 ≡ err e
      → reload again (reload discover m w).1 u
        ≡ (err reload_in_progress, (reload discover m w).1, u)
  reload-Stuck discover again m w u e h =
      reload-blocked again (reload discover m w).1 u (reload-failed discover m w e h)

-- Every position in the index is that of an entry with the id.
abbrev Sound : List PluginEntry → Table ℕ → Type 0
Sound full by_id =
    (id : String) (j : ℕ) → lookup id by_id ≡ some j → get_elem? full j ≡ some (record { id = id })

index_from-Sound :
    (full xs : List PluginEntry) (i : ℕ) (by_id : Table ℕ)
    → ((k : ℕ) → get_elem? full (i + k) ≡ get_elem? xs k)
    → Sound full by_id
    → Sound full (index_from i xs by_id)
unfolding index_from
index_from-Sound full [] i by_id at h = h
index_from-Sound full (x ∷ xs) i by_id at h =
    index_from-Sound full xs (suc i) (insert x.id i by_id)
      (λ k. subst (λ j. get_elem? full j ≡ get_elem? xs k) (omega arith) (at (suc k)))
      λ id j e. elim (Bool-cases (str_eq x.id id)) [
        | inl s ↦
            let f : some i ≡ some j = rw (lookup-insert x.id id i by_id, s) at e in
            let here : get_elem? full i ≡ some x =
              subst (λ j. get_elem? full j ≡ some x) (omega arith) (at 0) in
            let named : x.id ≡ id = (eq_iff x.id id).0 s in ground arith
        | inr s ↦
            let f : lookup id by_id ≡ some j = rw (lookup-insert x.id id i by_id, s) at e in
            h id j f
      ]

-- What the set of the discovered plugins finds under an id is an entry of the set with that id, and so
-- is the plugin that it names for a capability.
pub lookup_entry-named :
    (entries : List PluginEntry) (capability_index : Table String) (id : String) (p : PluginEntry)
    → lookup_entry (new_set entries capability_index) id ≡ some p
    → p.id ≡ id
unfolding lookup_entry new_set
lookup_entry-named entries capability_index id p h =
    elim (Option-cases (lookup id (index_from 0 entries []))) [
      | inl e ↦ ground arith
      | inr (j, e) ↦
          let found =
            index_from-Sound entries entries 0 [] (λ k. ap (get_elem? entries) (omega arith))
              (λ id j e. ground (arith, lookup-empty {V = ℕ} id)) id j e in
          ground arith
    ]
