-- ===== src/Governor/Chain/Laws.antt =====
-- A `PolicyChain` allows what all its governors allow, and passes on the first refusal.
use pan.Prelude.{◌≡◌, ◌≢◌, ap, ◌∙◌, ◌↔◌, String, List, [], ◌∷◌, ◌++◌}
use pan.Json.{Value}
use pan.Schema.{Scope}
use pan.Governor.Defs.{Verdict, allow, Governor, if_allowed_inv, if_allowed_next, if_allowed_stop}
use pan.Governor.Chain.{PolicyChain, ask_all, chain}

module _ {W : Type 0} (scope : Scope) (capability : String) (args : Value) where
  -- Each governor of the list allows, asked in the world that those before it left; the last leaves
  -- `w'`.
  abbrev pub Passes : List (Governor W) → W → W → Type 0
  Passes [] w w' = w ≡ w'
  Passes (g ∷ gs) w w' =
      ((g.govern scope capability args w).0 ≡ allow)
      × Passes gs (g.govern scope capability args w).1 w'

  ask_all_allows_iff :
      (gs : List (Governor W)) (w w' : W)
      → (ask_all gs scope capability args w ≡ (allow, w')) ↔ Passes gs w w'
  unfolding ask_all
  ask_all_allows_iff [] w w' = (λ h. ap (λ (r : Verdict × W). r.1) h, λ e. rw e)
  ask_all_allows_iff (g ∷ gs) w w' =
      let answer = g.govern scope capability args w in
      let rest = ask_all_allows_iff gs answer.1 w' in
      (
        λ h. let (a, n) = if_allowed_inv answer _ h in (a, rest.0 n),
        λ p. if_allowed_next answer _ p.0 ∙ rest.1 p.1,
      )

  -- The chain allows, and leaves the world `w'`, exactly if every governor does so in its turn.
  pub chain_allows_iff :
      (c : PolicyChain W) (w w' : W)
      → ((chain c).govern scope capability args w ≡ (allow, w')) ↔ Passes c.governors w w'
  unfolding chain
  chain_allows_iff c w w' = ask_all_allows_iff c.governors w w'

  -- The first governor that does not allow decides: its verdict and its world are the chain's, and
  -- the governors behind it are not asked.
  pub chain_first_refusal :
      (before : List (Governor W)) (g : Governor W) (behind : List (Governor W)) (w w' : W)
      → Passes before w w'
      → (g.govern scope capability args w').0 ≢ allow
      → (chain (record { governors = before ++ g ∷ behind })).govern scope capability args w
        ≡ g.govern scope capability args w'
  unfolding chain ask_all
  chain_first_refusal [] g behind w w' p n = rw p (if_allowed_stop _ _ n)
  chain_first_refusal (b ∷ before) g behind w w' p n =
      if_allowed_next _ _ p.0 ∙ chain_first_refusal before g behind _ w' p.1 n
