-- ===== src/Loop/Stall/Laws.antt =====
-- The stall detector counts the calls at the end of the history that are the same.
use pan.Prelude.{
  ℕ, ◌+◌, ◌<◌, ◌≤◌, ◌^◌, ◌≡◌, ◌↔◌, refl, true, ◌&&◌, String, List, [], ◌∷◌, arith, leb, str_eq,
  if◌then◌else◌, length, Bool-cases, inl, inr, leb→le, le→leb, subst, and_parts, eq_iff,
}
use pan.Loop.Stall.{max_identical, StallDetector, new, feed}

-- The detector after a history of calls, newest first.
pub fed : List (String × String) → StallDetector
unfolding new feed
fed [] = new
fed ((c, a) ∷ calls) = (feed (fed calls) c a).1

-- How many of the newest calls are the call `c` with the arguments `a`.
pub streak : String → String → List (String × String) → ℕ
streak c a [] = 0
streak c a ((d, b) ∷ calls) =
    let rest = streak c a calls in if str_eq d c && str_eq b a then rest + 1 else 0

streak_le : (c a : String) (calls : List (String × String)) → streak c a calls ≤ length calls
unfolding streak
streak_le c a [] = ground arith
streak_le c a ((d, b) ∷ calls) = let h = streak_le c a calls in ground arith

-- The detector holds the call `c` with `a` at the count `n`.
record Holds (s : StallDetector) (c a : String) (n : ℕ) : Type 0 where
  same_cap : s.last_cap ≡ c
  same_args : s.last_args ≡ a
  counted : s.count ≡ n

feed-Holds :
    (s : StallDetector) (d b c a : String) (n : ℕ)
    → Holds s d b n
    → n + 1 < 2 ^ 32
    → Holds (feed s c a).1 c a (if str_eq d c && str_eq b a then n + 1 else 1)
unfolding feed
feed-Holds s d b c a n h lt =
    let p = h.same_cap in
    let q = h.same_args in
    let r = h.counted in
    elim (Bool-cases (str_eq d c && str_eq b a)) [
      | inr other ↦ rw (p, q, other) (record { same_cap = refl; same_args = refl; counted = refl })
      | inl same ↦
          let (x, y) = and_parts (str_eq d c) (str_eq b a) same in
          rw (p, q, same)
            (record {
              same_cap = (eq_iff d c).0 x;
              same_args = (eq_iff b a).0 y;
              counted = rw r (omega arith);
            })
    ]

streak_next :
    (d b c a : String) (calls : List (String × String))
    → (if str_eq d c && str_eq b a then streak d b calls + 1 + 1 else 1)
      ≡ streak c a ((d, b) ∷ calls) + 1
unfolding streak
streak_next d b c a calls = elim (Bool-cases (str_eq d c && str_eq b a)) [
  | inr other ↦ rw other refl
  | inl same ↦
      let (x, y) = and_parts (str_eq d c) (str_eq b a) same in
      let x' = (eq_iff d c).0 x in let y' = (eq_iff b a).0 y in rw (same, x', y') refl
]

-- After a history, the detector holds the newest call and its streak.
fed-Holds :
    (c a : String) (calls : List (String × String))
    → length calls + 1 < 2 ^ 32
    → Holds (fed ((c, a) ∷ calls)) c a (streak c a calls + 1)
unfolding fed streak
fed-Holds c a [] h = elim (Bool-cases (str_eq "" c && str_eq "" a)) [
  | inr other ↦ rw other (record { same_cap = refl; same_args = refl; counted = refl })
  | inl same ↦
      let (x, y) = and_parts (str_eq "" c) (str_eq "" a) same in
      rw same
        (record { same_cap = (eq_iff "" c).0 x; same_args = (eq_iff "" a).0 y; counted = refl })
]
fed-Holds c a ((d, b) ∷ calls) h =
    let le = streak_le d b calls in
    let f =
      feed-Holds (fed ((d, b) ∷ calls)) d b c a (streak d b calls + 1)
        (fed-Holds d b calls (omega arith)) (omega arith) in
    subst (λ n. Holds (feed (fed ((d, b) ∷ calls)) c a).1 c a n) (streak_next d b c a calls) f

feed-leb :
    (s : StallDetector) (c a : String) → (feed s c a).0 ≡ leb max_identical (feed s c a).1.count
unfolding feed
feed-leb s c a = refl

next-count :
    (c a : String) (calls : List (String × String))
    → length calls + 1 < 2 ^ 32
    → (feed (fed calls) c a).1.count ≡ streak c a calls + 1
unfolding fed
next-count c a calls h = (fed-Holds c a calls h).counted

-- `feed` reports a stall exactly if the call is at least the fourth of its kind in a row, as long as
-- the history is shorter than 2^32.
pub feed-streak :
    (c a : String) (calls : List (String × String))
    → length calls + 1 < 2 ^ 32
    → ((feed (fed calls) c a).0 ≡ true) ↔ (3 ≤ streak c a calls)
feed-streak c a calls h =
    rw (feed-leb (fed calls) c a, next-count c a calls h)
      (
        (λ y. let z = leb→le max_identical (streak c a calls + 1) y in omega arith),
        (λ y. le→leb max_identical (streak c a calls + 1) (omega arith)),
      )
