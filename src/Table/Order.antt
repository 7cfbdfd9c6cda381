-- ===== src/Table/Order.antt =====
-- The entries of a `BTreeMap` stand in key order, so that each key has one entry.
use Prim.Native.Char.{Char, code}
use Prim.Native.Nat.{Ordering}
use Prim.Native.String.{String, compare}
use Prim.Native.String.compare
use text.Mathlib.TextEquality.{path_by_compare}
use text.Mathlib.TextPositions.{compare_refl}
use pan.Prelude.{
  ◌<◌, ◌≡◌, refl, subst, sym, arith, ◌⊎◌, inl, inr, ◌↔◌, [], ◌∷◌, none, str_eq, eq_iff, Bool-cases,
}
use pan.Table.{Table, lookup, insert}

abbrev pub Before : String → String → Type 0
Before a b = compare a b ≡ Ordering.lt

-- The order of the first characters, and else that of the rest.
abbrev Later : String → String → Char → Char → Type 0
Later a b x y = (code x < code y) ⊎ ((code x ≡ code y) × Before a b)

Before-cons_iff :
    (a b : String) (x y : Char) → Before (String.◌∷◌ x a) (String.◌∷◌ y b) ↔ Later a b x y
Before-cons_iff a b x y = rw (compare.cons-cons x y a b) (ground arith)

Before-trans : (a b c : String) → Before a b → Before b c → Before a c
Before-trans a String.[] String.[] h k = absurd (ground (arith, compare.nil-nil))
Before-trans String.[] b (String.◌∷◌ z c) h k = compare.nil-cons z c
Before-trans a (String.◌∷◌ y b) String.[] h k =
    let e = compare.cons-nil y b in absurd (ground arith)
Before-trans (String.◌∷◌ x a) String.[] (String.◌∷◌ z c) h k =
    let e = compare.cons-nil x a in absurd (ground arith)
Before-trans (String.◌∷◌ x a) (String.◌∷◌ y b) (String.◌∷◌ z c) h k =
    let p = (Before-cons_iff a b x y).0 h in
    let q = (Before-cons_iff b c y z).0 k in
    let rest = Before-trans a b c in (Before-cons_iff a c x z).1 (ground arith)

Before-flip : (a b : String) → compare a b ≡ Ordering.gt → Before b a
Before-flip String.[] String.[] h = absurd (ground (arith, compare.nil-nil))
Before-flip String.[] (String.◌∷◌ y b) h = let e = compare.nil-cons y b in absurd (ground arith)
Before-flip (String.◌∷◌ x a) String.[] h = compare.nil-cons x a
Before-flip (String.◌∷◌ x a) (String.◌∷◌ y b) h =
    let rest = Before-flip a b in
    let e = compare.cons-cons x y a b in (Before-cons_iff b a y x).1 (ground arith)

Ordering-cases : (o : Ordering) → (o ≡ Ordering.lt) ⊎ ((o ≡ Ordering.eq) ⊎ (o ≡ Ordering.gt))
Ordering-cases Ordering.lt = inl refl
Ordering-cases Ordering.eq = inr (inl refl)
Ordering-cases Ordering.gt = inr (inr refl)

module _ {ℓ} {V : Type ℓ} where
  -- The key comes before every key of the table.
  abbrev pub Below : String → Table V → Type 0
  Below k [] = Unit
  Below k ((at, held) ∷ rest) = Before k at × Below k rest

  abbrev pub IsSorted : Table V → Type 0
  IsSorted [] = Unit
  IsSorted ((at, held) ∷ rest) = Below at rest × IsSorted rest

  Below-trans : (j k : String) (m : Table V) → Before j k → Below k m → Below j m
  Below-trans j k [] h b = tt
  Below-trans j k ((at, held) ∷ rest) h (b, bs) =
      (Before-trans j k at h b, Below-trans j k rest h bs)

  Below-insert :
      (j k : String) (v : V) (m : Table V) → Before j k → Below j m → Below j (insert k v m)
  unfolding insert
  Below-insert j k v [] h b = (h, tt)
  Below-insert j k v ((at, held) ∷ rest) h (b, bs) =
      let more = Below-insert j k v rest h bs in
      elim (Ordering-cases (compare k at)) [
        | inl e ↦ rw (e, Below) (h, (b, bs))
        | inr (inl e) ↦ rw (e, Below) (h, bs)
        | inr (inr e) ↦ rw (e, Below) (b, more)
      ]

  pub lookup-Below : (k : String) (m : Table V) → Below k m → lookup k m ≡ none
  unfolding lookup
  lookup-Below k [] b = refl
  lookup-Below k ((at, held) ∷ rest) (b, bs) =
      let behind = lookup-Below k rest bs in
      elim (Bool-cases (str_eq at k)) [
        | inl e ↦
            let same = compare_refl k in
            let p : Before k k = subst (Before k) ((eq_iff at k).0 e) b in absurd (ground arith)
        | inr e ↦ rw e behind
      ]

  pub insert-IsSorted : (k : String) (v : V) (m : Table V) → IsSorted m → IsSorted (insert k v m)
  unfolding insert
  insert-IsSorted k v [] s = (tt, tt)
  insert-IsSorted k v ((at, held) ∷ rest) (b, s) =
      let more = insert-IsSorted k v rest s in
      elim (Ordering-cases (compare k at)) [
        | inl e ↦ rw (e, IsSorted) ((e, Below-trans k at rest e b), (b, s))
        | inr (inl e) ↦
            rw (e, IsSorted) (subst (λ j. Below j rest) (sym (path_by_compare k at e)) b, s)
        | inr (inr e) ↦ rw (e, IsSorted) (Below-insert at k v rest (Before-flip k at e) b, more)
      ]
