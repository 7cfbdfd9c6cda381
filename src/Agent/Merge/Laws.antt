-- ===== src/Agent/Merge/Laws.antt =====
-- Which setting of a component wins.
use pan.Prelude.{
  ◌≡◌, refl, ap, ◌∙◌, subst, inl, inr, String, [], ◌∷◌, Option, none, some, str_eq, eq_iff,
  if◌then◌else◌, Option-cases, Bool-cases, unwrap_or, bind,
}
use pan.Json.{Value, get}
use pan.Json.Build.{fields_of-to_fields}
use pan.Table.{Table, lookup, insert, lookup-insert}
use pan.Table.Order.{IsSorted, Below, lookup-Below, insert-IsSorted}
use pan.Config.{Config}
use pan.Agent.Manifest.{AgentManifest}
use pan.Agent.Merge.{
  merge_global, toml_table_to_json, TomlValues, toml_value_to_json, insert_each, copy_each,
  persona_table, merge_provider_settings, merged,
}

-- `first`, and where it has nothing, `second`.
abbrev pub or_else {ℓ} : {A : Type ℓ} → Option A → Option A → Option A
or_else (some a) o = some a
or_else none o = o

abbrev pub map_some {ℓ κ} : {A : Type ℓ} {B : Type κ} → (A → B) → Option A → Option B
map_some f (some a) = some (f a)
map_some f none = none

map_or_else {ℓ κ} :
    {A : Type ℓ} {B : Type κ} (f : A → B) (o p : Option A)
    → or_else (map_some f o) (map_some f p) ≡ map_some f (or_else o p)
map_or_else f (some a) p = refl
map_or_else f none p = refl

pub or_else-none {ℓ} : {A : Type ℓ} (o : Option A) → or_else o none ≡ o
or_else-none (some a) = refl
or_else-none none = refl

module _ {T : Type 0} (values : TomlValues T) where
  -- A sorted table over another: each key has the table's entry, else what it had before.
  lookup-insert_each :
      (t : Table T) (out : Table Value) (k : String)
      → IsSorted t
      → lookup k (insert_each values t out)
        ≡ or_else (map_some (toml_value_to_json values) (lookup k t)) (lookup k out)
  unfolding insert_each lookup
  lookup-insert_each [] out k s = refl
  lookup-insert_each ((at, v) ∷ rest) out k (b, s) =
      let json = toml_value_to_json values v in
      let behind = lookup-insert_each rest (insert at json out) k s in
      let here = lookup-insert at k json out in
      elim (Bool-cases (str_eq at k)) [
        | inl e ↦
            let absent : lookup k rest ≡ none =
              lookup-Below k rest (subst (λ j. Below j rest) ((eq_iff at k).0 e) b) in
            behind ∙ rw (absent, here, e) refl
        | inr e ↦ behind ∙ rw (here, e) refl
      ]

  lookup-copy_each :
      (t : Table T) (out : Table T) (k : String)
      → IsSorted t
      → lookup k (copy_each values t out) ≡ or_else (lookup k t) (lookup k out)
  unfolding copy_each lookup
  lookup-copy_each [] out k s = refl
  lookup-copy_each ((at, v) ∷ rest) out k (b, s) =
      let behind = lookup-copy_each rest (insert at v out) k s in
      let here = lookup-insert at k v out in
      elim (Bool-cases (str_eq at k)) [
        | inl e ↦
            let absent : lookup k rest ≡ none =
              lookup-Below k rest (subst (λ j. Below j rest) ((eq_iff at k).0 e) b) in
            behind ∙ rw (absent, here, e) refl
        | inr e ↦ behind ∙ rw (here, e) refl
      ]

  copy_each-IsSorted : (t out : Table T) → IsSorted out → IsSorted (copy_each values t out)
  unfolding copy_each
  copy_each-IsSorted [] out s = s
  copy_each-IsSorted ((at, v) ∷ rest) out s =
      copy_each-IsSorted rest (insert at v out) (insert-IsSorted at v out s)

  persona_table-IsSorted : (m : AgentManifest T) → IsSorted (persona_table values m)
  unfolding persona_table
  persona_table-IsSorted m =
      let named = insert-IsSorted "instruction" (values.string m.persona.instruction) [] tt in
      copy_each-IsSorted m.persona.settings _ (elim (Option-cases m.persona.model) [
        | inl e ↦ rw e named
        | inr (model, e) ↦ rw e (
            insert-IsSorted "model" (values.string model)
              (insert "instruction" (values.string m.persona.instruction) []) named)
      ])

  -- What the configuration has for a component.
  abbrev pub plugin_table : Option (Config T) → String → Table T
  plugin_table global id = unwrap_or (bind global λ cfg. lookup id cfg.plugin) []

  -- What the persona says by name: its model, and its instruction.
  unfoldable pub named_setting : AgentManifest T → String → Option T
  named_setting m k =
      or_else
        (bind m.persona.model
          λ model. if str_eq "model" k then some (values.string model) else none)
        (if str_eq "instruction" k then some (values.string m.persona.instruction) else none)

  lookup-modelled :
      (instruction model : T) (k : String)
      → lookup k (insert "model" model (insert "instruction" instruction []))
        ≡ or_else
            (if str_eq "model" k then some model else none)
            (if str_eq "instruction" k then some instruction else none)
  unfolding lookup
  lookup-modelled instruction model k =
      let named = lookup-insert "instruction" k instruction [] in
      lookup-insert "model" k model (insert "instruction" instruction [])
      ∙ elim (Bool-cases (str_eq "model" k)) [ inl f ↦ rw f refl | inr f ↦ rw f named ]

  lookup-persona_table :
      (m : AgentManifest T) (k : String)
      → IsSorted m.persona.settings
      → lookup k (persona_table values m)
        ≡ or_else (lookup k m.persona.settings) (named_setting m k)
  unfolding persona_table named_setting lookup
  lookup-persona_table m k s =
      let instruction = values.string m.persona.instruction in
      let named = lookup-insert "instruction" k instruction [] in
      elim (Option-cases m.persona.model) [
        | inl e ↦ rw e (
            lookup-copy_each m.persona.settings _ k s
            ∙ ap (or_else (lookup k m.persona.settings)) named)
        | inr (model, e) ↦ rw e (
            lookup-copy_each m.persona.settings _ k s
            ∙ ap (or_else (lookup k m.persona.settings))
                (lookup-modelled instruction (values.string model) k))
      ]

  global_layer :
      (cfg : Config T) (id k : String)
      → IsSorted (unwrap_or (lookup id cfg.plugin) [])
      → lookup k
          (elim (lookup id cfg.plugin) [ some table ↦ insert_each values table [] | none ↦ [] ])
        ≡ map_some (toml_value_to_json values) (lookup k (unwrap_or (lookup id cfg.plugin) []))
  unfolding lookup
  global_layer cfg id k g = elim (Option-cases (lookup id cfg.plugin)) [
    | inl e ↦ rw e refl
    | inr (table, e) ↦ rw e (
        lookup-insert_each table [] k (subst (λ o. IsSorted (unwrap_or o [])) e g) ∙ or_else-none _)
  ]

  get-merged :
      (global : Option (Config T)) (id : String) (t : Table T) (k : String)
      → IsSorted t
      → IsSorted (plugin_table global id)
      → get (merged values global id t) k
        ≡ map_some
            (toml_value_to_json values)
            (or_else (lookup k t) (lookup k (plugin_table global id)))
  unfolding merged merge_global toml_table_to_json lookup
  get-merged none id t k s g =
      fields_of-to_fields _ k ∙ lookup-insert_each t [] k s ∙ map_or_else _ (lookup k t) none
  get-merged (some cfg) id t k s g =
      fields_of-to_fields _ k
      ∙ lookup-insert_each t _ k s
      ∙ ap (or_else (map_some (toml_value_to_json values) (lookup k t))) (global_layer cfg id k g)
      ∙ map_or_else _ (lookup k t) _

  -- A setting of the provider is that of the persona's table, else the persona's model or instruction
  -- under their names, else that of the configuration, else missing.
  pub get-merge_provider_settings :
      (global : Option (Config T)) (m : AgentManifest T) (k : String)
      → IsSorted m.persona.settings
      → IsSorted (plugin_table global m.persona.provider)
      → get (merge_provider_settings values global m) k
        ≡ map_some (toml_value_to_json values) (
            or_else
              (or_else (lookup k m.persona.settings) (named_setting m k))
              (lookup k (plugin_table global m.persona.provider)))
  unfolding merge_provider_settings
  get-merge_provider_settings global m k s g =
      get-merged global m.persona.provider (persona_table values m) k (persona_table-IsSorted m) g
      ∙ ap
          (λ o.
            map_some (toml_value_to_json values)
              (or_else o (lookup k (plugin_table global m.persona.provider))))
          (lookup-persona_table m k s)
