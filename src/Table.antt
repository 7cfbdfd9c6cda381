-- ===== src/Table.antt =====
-- The maps with text keys of the crates. `BTreeMap` keeps its entries in key order, which the
-- program reads by `values()`. A `HashMap` is the same table: where the program iterates over one,
-- the order that it sees is not specified, and no theorem depends on it.
pub mod Order
use Prim.Native.Nat.{Ordering}
use Prim.Native.String.{compare}
use pan.Prelude.{
  ◌≡◌, refl, Bool, true, false, String, List, [], ◌∷◌, Option, none, some, arith, str_eq, eq_iff,
  if◌then◌else◌,
}

abbrev pub Table {ℓ} : Type ℓ → Type ℓ
Table V = List (String × V)

module _ {ℓ} {V : Type ℓ} where
  unfoldable pub lookup : String → Table V → Option V
  lookup k [] = none
  lookup k ((at, held) ∷ rest) = if str_eq at k then some held else lookup k rest

  unfoldable pub insert : String → V → Table V → Table V
  insert k v [] = (k, v) ∷ []
  insert k v ((at, held) ∷ rest) = elim (compare k at) [
    | Ordering.lt ↦ (k, v) ∷ (at, held) ∷ rest
    | Ordering.eq ↦ (k, v) ∷ rest
    | Ordering.gt ↦ (at, held) ∷ insert k v rest
  ]

  unfoldable pub remove : String → Table V → Table V
  remove k [] = []
  remove k ((at, held) ∷ rest) = if str_eq at k then remove k rest else (at, held) ∷ remove k rest

  unfoldable pub values : Table V → List V
  values [] = []
  values ((at, held) ∷ rest) = held ∷ values rest

  unfoldable pub keys : Table V → List String
  keys [] = []
  keys ((at, held) ∷ rest) = at ∷ keys rest

  unfoldable pub contains : String → Table V → Bool
  contains k m = elim (lookup k m) [ none ↦ false | some v ↦ true ]

  pub lookup-empty : (k : String) → lookup k [] ≡ none
  unfolding lookup
  lookup-empty k = refl

  pub lookup-insert :
      (k j : String) (v : V) (m : Table V)
      → lookup j (insert k v m) ≡ (if str_eq k j then some v else lookup j m)
  unfolding lookup insert
  lookup-insert k j v [] = refl
  lookup-insert k j v ((at, held) ∷ rest) =
      let behind = lookup-insert k j v rest in
      ground (eq_iff at j, eq_iff at k, eq_iff k at, eq_iff k j, arith, behind)

  pub lookup-remove :
      (k j : String) (m : Table V)
      → lookup j (remove k m) ≡ (if str_eq k j then none else lookup j m)
  unfolding lookup remove
  lookup-remove k j [] = ground arith
  lookup-remove k j ((at, held) ∷ rest) =
      let behind = lookup-remove k j rest in
      ground (eq_iff at j, eq_iff at k, eq_iff k j, arith, behind)
