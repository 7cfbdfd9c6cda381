-- ===== src/Gateway/Pool/Laws.antt =====
-- Which agents a pool holds.
use pan.Prelude.{
  ◌≡◌, refl, sym, ap, ◌∙◌, ◌↔◌, ◌⊎◌, inl, inr, true, false, String, List, [], ◌∷◌, Option, none,
  some, Result, ok, err, arith, str_eq, eq_iff, is_blank, if◌then◌else◌, Any, Bool-cases,
  Result-cases, Option-cases, ok-injective,
}
use pan.Table.{Table, lookup, insert, contains, lookup-insert, lookup-empty}
use pan.Components.{ComponentRegistry}
use pan.Config.{Config}
use pan.Agent.Manifest.{AgentManifest}
use pan.Agent.Merge.{TomlValues}
use pan.Agent.Assemble.{AssembledAgent, assemble_with_config}
use pan.Gateway.Pool.{
  AgentPool, Directory, is_toml, load_manifest, add_agent, add_manifest, add_entries,
  load_with_config, get,
}

module _ {W C T : Type 0} (registry : ComponentRegistry W C) (values : TomlValues T)
    (disk : Directory T) (global : Option (Config T)) where
  -- An entry that is a toml file whose manifest has the name and assembles to the agent.
  pub record IsEntry (name : String) (agent : AssembledAgent W C) (entry : Result String String)
      : Type 0 where
    pub path : String
    pub manifest : AgentManifest T
    pub there : entry ≡ ok path
    pub toml : is_toml registry values disk global path ≡ true
    pub loaded : load_manifest registry values disk global path ≡ ok manifest
    pub named : manifest.meta.name ≡ name
    pub full : is_blank name ≡ false
    pub assembled : assemble_with_config registry values manifest global ≡ ok agent

  abbrev Agents : Type 0
  Agents = Table (AssembledAgent W C)

  lookup-add_agent :
      (name : String) (agent : AssembledAgent W C) (agents agents' : Agents)
      → add_agent registry values disk global name agent agents ≡ ok agents'
      → (lookup name agents ≡ none)
        × ((k : String)
            → lookup k agents' ≡ (if str_eq name k then some agent else lookup k agents))
  unfolding add_agent contains
  lookup-add_agent name agent agents agents' h = elim (Option-cases (lookup name agents)) [
    | inr (a, e) ↦ absurd (ground arith)
    | inl n ↦
        let same : insert name agent agents ≡ agents' =
          ok-injective (rw (add_agent, contains, n) at h) in
        (n, λ k. ap (lookup k) (sym same) ∙ lookup-insert name k agent agents)
  ]

  -- What makes the agent of a manifest that the loop has read.
  abbrev IsMade : String → AssembledAgent W C → AgentManifest T → Type 0
  IsMade name agent m =
      (m.meta.name ≡ name)
      × (is_blank name ≡ false)
      × (assemble_with_config registry values m global ≡ ok agent)

  lookup-add_manifest :
      (m : AgentManifest T) (agents agents' : Agents) (name : String) (a : AssembledAgent W C)
      → add_manifest registry values disk global m agents ≡ ok agents'
      → (lookup name agents' ≡ some a) ↔ (IsMade name a m ⊎ (lookup name agents ≡ some a))
  unfolding add_manifest
  lookup-add_manifest m agents agents' name a h = elim (Bool-cases (is_blank m.meta.name)) [
    | inl blank ↦
        let same : agents ≡ agents' = ok-injective (rw (add_manifest, blank) at h) in
        (
          λ l. inr (ap (lookup name) same ∙ l),
          λ s. elim s [
            | inr l ↦ ap (lookup name) (sym same) ∙ l
            | inl (n, f, x) ↦ absurd (let e = sym blank ∙ ap is_blank n ∙ f in cc)
          ],
        )
    | inr full ↦ elim (Result-cases (assemble_with_config registry values m global)) [
      | inr (e, x) ↦
          let same : agents ≡ agents' = ok-injective (rw (add_manifest, full, x) at h) in
          (
            λ l. inr (ap (lookup name) same ∙ l),
            λ s. elim s [ inr l ↦ ap (lookup name) (sym same) ∙ l | inl (n, f, y) ↦ absurd (cc) ],
          )
      | inl (agent, x) ↦
          let (new, at) =
            lookup-add_agent m.meta.name agent agents agents' (rw (add_manifest, full, x) at h) in
          let found = at name in
          elim (Bool-cases (str_eq m.meta.name name)) [
            | inl t ↦
                let n = (eq_iff m.meta.name name).0 t in
                let here : lookup name agents' ≡ some agent = found ∙ (rw t refl) in
                (
                  λ l.
                      let same : agent ≡ a = cc in
                      inl (n, ap is_blank (sym n) ∙ full, x ∙ ap ok same),
                  λ s. elim s [
                    | inl (n', f, y) ↦
                        let same : agent ≡ a = ok-injective (sym x ∙ y) in here ∙ ap some same
                    | inr l ↦
                        absurd (let stuck = sym l ∙ ap (λ k. lookup k agents) (sym n) ∙ new in cc)
                  ],
                )
            | inr o ↦
                let there : lookup name agents' ≡ lookup name agents = found ∙ (rw o refl) in
                (
                  λ l. inr (sym there ∙ l),
                  λ s. elim s [
                    | inr l ↦ there ∙ l
                    | inl (n, f, y) ↦ absurd (let t = (eq_iff m.meta.name name).1 n in cc)
                  ],
                )
          ]
    ]
  ]

  IsEntry-IsMade :
      (path : String) (m : AgentManifest T) (name : String) (a : AssembledAgent W C)
      → is_toml registry values disk global path ≡ true
      → load_manifest registry values disk global path ≡ ok m
      → IsEntry name a (ok path) ↔ IsMade name a m
  IsEntry-IsMade path m name a t l = (
    λ e.
        let same : path ≡ e.path = ok-injective e.there in
        let read : m ≡ e.manifest =
          ok-injective (sym l ∙ ap (load_manifest registry values disk global) same ∙ e.loaded) in
        (
          ap (λ (x : AgentManifest T). x.meta.name) read ∙ e.named,
          e.full,
          ap (λ (x : AgentManifest T). assemble_with_config registry values x global) read
              ∙ e.assembled,
        ),
    λ (n, f, x). record {
      path = path;
      manifest = m;
      there = refl;
      toml = t;
      loaded = l;
      named = n;
      full = f;
      assembled = x;
    },
  )

  lookup-add_entries :
      (es : List (Result String String)) (agents agents' : Agents) (name : String)
      (a : AssembledAgent W C)
      → add_entries registry values disk global es agents ≡ ok agents'
      → (lookup name agents' ≡ some a) ↔ (Any (IsEntry name a) es ⊎ (lookup name agents ≡ some a))
  unfolding add_entries
  lookup-add_entries [] agents agents' name a h =
      let same : agents ≡ agents' = ok-injective h in
      (
        λ l. inr (ap (lookup name) same ∙ l),
        λ s. elim s [ inl x ↦ elim x [ ] | inr l ↦ ap (lookup name) (sym same) ∙ l ],
      )
  lookup-add_entries (err e ∷ es) agents agents' name a h = absurd (cc)
  lookup-add_entries (ok path ∷ es) agents agents' name a h =
      elim (Bool-cases (is_toml registry values disk global path)) [
        | inr other ↦
            let rest = lookup-add_entries es agents agents' name a (rw (add_entries, other) at h) in
            (
              λ l. elim (rest.0 l) [ inl x ↦ inl (inr x) | inr y ↦ inr y ],
              λ s. elim s [
                | inr y ↦ rest.1 (inr y)
                | inl (inr x) ↦ rest.1 (inl x)
                | inl (inl x) ↦
                    let same : path ≡ x.path = ok-injective x.there in
                    let t = ap (is_toml registry values disk global) same ∙ x.toml in
                    absurd (let z = sym other ∙ t in cc)
              ],
            )
        | inl t ↦ elim (Result-cases (load_manifest registry values disk global path)) [
          | inr (e, l) ↦ absurd (let z : err e ≡ ok agents' = rw (add_entries, t, l) at h in cc)
          | inl (m, l) ↦
              let made = IsEntry-IsMade path m name a t l in
              elim (Result-cases (add_manifest registry values disk global m agents)) [
                | inr (e, x) ↦
                    absurd (let z : err e ≡ ok agents' = rw (add_entries, t, l, x) at h in cc)
                | inl (agents1, x) ↦
                    let rest =
                      lookup-add_entries es agents1 agents' name a
                        (rw (add_entries, t, l, x) at h) in
                    let step = lookup-add_manifest m agents agents1 name a x in
                    (
                      λ k. elim (rest.0 k) [
                        | inl y ↦ inl (inr y)
                        | inr y ↦ elim (step.0 y) [ inl z ↦ inl (inl (made.1 z)) | inr z ↦ inr z ]
                      ],
                      λ s. elim s [
                        | inr y ↦ rest.1 (inr (step.1 (inr y)))
                        | inl (inr y) ↦ rest.1 (inl y)
                        | inl (inl y) ↦ rest.1 (inr (step.1 (inl (made.0 y))))
                      ],
                    )
              ]
        ]
      ]

  -- Where the entries of a directory can be read and its pool loads, the pool holds an agent under
  -- a name exactly when one of the entries is a toml file whose manifest has that name, which is
  -- not blank, and assembles to that agent.
  pub get-load_with_config :
      (dir : String) (entries : List (Result String String)) (pool : AgentPool W C) (name : String)
      (a : AssembledAgent W C)
      → disk.read_dir dir ≡ ok entries
      → load_with_config registry values disk global dir ≡ ok pool
      → (get pool name ≡ some a) ↔ Any (IsEntry name a) entries
  unfolding load_with_config get
  get-load_with_config dir entries pool name a r h = elim (Bool-cases (disk.exists dir)) [
    | inr gone ↦ absurd (ground arith)
    | inl there ↦ elim (Result-cases (add_entries registry values disk global entries [])) [
      | inr (e, x) ↦ absurd (ground arith)
      | inl ([], x) ↦ absurd (ground arith)
      | inl (b ∷ rest, x) ↦
          let held : pool.agents ≡ b ∷ rest = ground arith in
          let all = lookup-add_entries entries [] (b ∷ rest) name a x in
          (
            λ g. elim (all.0 (sym (ap (lookup name) held) ∙ g)) [
              | inl y ↦ y
              | inr z ↦ absurd (let n = sym (lookup-empty name) ∙ z in cc)
            ],
            λ y. ap (lookup name) held ∙ all.1 (inl y),
          )
    ]
  ]
