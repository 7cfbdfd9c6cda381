-- ===== src/Loop/Sources/Laws.antt =====
-- The two sources yield finitely many goals; what a wait keeps of the goals that it reads.
use pan.Prelude.{
  ℕ, ◌+◌, ◌≤◌, ◌<◌, ◌≡◌, ◌⊎◌, refl, subst, List, [], ◌∷◌, Option, none, some, arith, inl, inr,
  Bool-cases, Option-cases, false, length, length-append, All,
}
use pan.Schema.{Goal, superseded_by}
use pan.Loop.Span.Fuel.{Finite}
use pan.Loop.Sources.{
  once, StreamingObservations, wait, recv_from, next_goal, scan, superseded, streaming,
}

unfoldable pub once_left : Option Goal → ℕ
once_left none = 0
once_left (some g) = 1

pub once-Finite : Finite once once_left
unfolding once once_left
once-Finite = record {
  taken = λ o g. elim o [ none ↦ λ e. ground arith | some h ↦ λ e. ground arith ];
  newer = λ c g o e. ground arith;
  waited = λ c o e. ground arith;
}

abbrev pub arriving : List (List Goal) → ℕ
arriving [] = 0
arriving (gs ∷ later) = length gs + arriving later

pub goals_left : StreamingObservations → ℕ
unfolding once_left
goals_left o = length o.rx + once_left o.pending + arriving o.arrivals

recv_from_less :
    (gss : List (List Goal)) (g : Goal)
    → (recv_from gss).0 ≡ some g
    → goals_left (recv_from gss).1 < arriving gss
unfolding goals_left once_left
recv_from_less [] g e = ground arith
recv_from_less ([] ∷ later) g e = let h = recv_from_less later g e in omega (arith, h)
recv_from_less ((h ∷ gs) ∷ later) g e = ground arith

next_goal_less :
    (o : StreamingObservations) (g : Goal)
    → (next_goal o).0 ≡ some g
    → goals_left (next_goal o).1 < goals_left o
unfolding goals_left next_goal once_left
next_goal_less o g e = elim (Option-cases o.pending) [
  | inl q ↦ let h = recv_from_less (o.rx ∷ o.arrivals) g (ground arith) in ground arith
  | inr (p, q) ↦ ground arith
]

List-cases {ℓ} : {A : Type ℓ} (xs : List A) → (xs ≡ []) ⊎ ((x : A) × (ys : List A) × (xs ≡ x ∷ ys))
List-cases [] = inl refl
List-cases (x ∷ xs) = inr (x, xs, refl)

wait_left : (o : StreamingObservations) → goals_left (wait o) ≡ goals_left o
unfolding goals_left wait
wait_left o = elim (List-cases o.arrivals) [
  | inl q ↦ rw q refl
  | inr (gs, later, q) ↦ let a = length-append o.rx gs in ground arith
]

scan_le :
    (c : Goal) (gs : List Goal) (p : Option Goal) (later : List (List Goal))
    → goals_left (scan c gs p later).1 ≤ length gs + once_left p + arriving later
unfolding goals_left scan once_left
scan_le c [] p later = ground arith
scan_le c (g ∷ gs) p later =
    let h = scan_le c gs (some g) later in
    elim (Bool-cases (superseded_by c g)) [ inl q ↦ ground arith | inr q ↦ ground arith ]

scan_less :
    (c : Goal) (gs : List Goal) (p : Option Goal) (later : List (List Goal)) (g : Goal)
    → (scan c gs p later).0 ≡ some g
    → goals_left (scan c gs p later).1 < length gs + once_left p + arriving later
unfolding goals_left scan once_left
scan_less c [] p later g e = ground arith
scan_less c (h ∷ gs) p later g e =
    let rest = scan_less c gs (some h) later g in
    elim (Bool-cases (superseded_by c h)) [
      | inl q ↦ ground arith
      | inr q ↦ let k = rest (ground arith) in ground arith
    ]

superseded_le :
    (c : Goal) (o : StreamingObservations) → goals_left (superseded c o).1 ≤ goals_left o
unfolding superseded goals_left once_left
superseded_le c o =
    let p = wait o in
    let e = wait_left o in
    let h = scan_le c p.rx p.pending p.arrivals in
    subst (λ n. goals_left (superseded c o).1 ≤ n) e h

pub streaming-Finite : Finite streaming goals_left
unfolding streaming superseded goals_left once_left
streaming-Finite = record {
  taken = λ o g e. next_goal_less o g e;
  newer = λ c g o e.
      let p = wait o in
      let q = wait_left o in
      let h = scan_less c p.rx p.pending p.arrivals g e in
      subst (λ n. goals_left (superseded c o).1 < n) q h;
  waited = λ c o e. superseded_le c o;
}

-- The last of the goals, or else the one that was there.
abbrev pub last_or : Option Goal → List Goal → Option Goal
last_or p [] = p
last_or p (g ∷ gs) = last_or (some g) gs

-- Where none of the goals that `superseded` reads is newer than the current one, only the last of
-- them is kept for `next_goal`: those before it, and a goal that was pending, are lost.
pub superseded_keeps_last :
    (c : Goal) (o : StreamingObservations)
    → All (λ g. superseded_by c g ≡ false) (wait o).rx
    → ((superseded c o).0 ≡ none)
      × ((superseded c o).1.pending ≡ last_or (wait o).pending (wait o).rx)
unfolding superseded scan
superseded_keeps_last c o h = go c (wait o).rx (wait o).pending (wait o).arrivals h
  where
    go :
        (c : Goal) (gs : List Goal) (p : Option Goal) (later : List (List Goal))
        → All (λ g. superseded_by c g ≡ false) gs
        → ((scan c gs p later).0 ≡ none) × ((scan c gs p later).1.pending ≡ last_or p gs)
    go c [] p later h = (refl, refl)
    go c (g ∷ gs) p later h = let (a, b) = go c gs (some g) later h.1 in rw h.0 (a, b)
