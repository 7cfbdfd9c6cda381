-- ===== src/Daemon/Mind/Laws.antt =====
-- What is left of a completion: the blocks in front are dropped, and a tail is cut at a sentence's end.
use Prim.Native.Char.{Char}
use text.Mathlib.TextLemmas.{cons-append, nil-append, append_assoc}
use Prim.Native.String.{len}
use pan.Prelude.{
  ℕ, zero, suc, ◌≤◌, ◌<◌, ◌≡◌, ◌⊎◌, refl, sym, ap, subst, ◌∙◌, true, String, Option, none, some,
  arith, not, ◌&&◌, leb, str_eq, same_char, trim, trim_start, trim_end_matches, unwrap_or, ◌⧺◌,
  Bool-cases, Option-cases, inl, inr,
}
use pan.Daemon.Mind.{
  chars, after, after_block, drop_blocks, trim_start_matches, last_end, ends_well, ends_sentence,
  cut_tail, clean_line,
}

after-lt : (c : Char) (s r : String) → after c s ≡ some r → chars r < chars s
unfolding after
after-lt c String.[] r h = absurd (cc)
after-lt c (String.◌∷◌ d s) r h = elim (Bool-cases (same_char d c)) [
  | inl here ↦
      let same : some s ≡ some r = rw (after, here) at h in
      let e : s ≡ r = cc in omega (arith, ap chars e)
  | inr later ↦ let below = after-lt c s r (rw (after, later) at h) in omega arith
]

after_block-lt : (s r : String) → after_block s ≡ some r → chars r < chars s
unfolding after_block
after_block-lt String.[] r h = absurd (cc)
after_block-lt (String.◌∷◌ c s) r h = elim (Bool-cases (same_char c "(")) [
  | inl p ↦ let below = after-lt ")" s r (rw (after_block, p) at h) in omega arith
  | inr p ↦ elim (Bool-cases (same_char c "*")) [
    | inl q ↦ let below = after-lt "*" s r (rw (after_block, p, q) at h) in omega arith
    | inr q ↦ absurd (let z : none ≡ some r = rw (after_block, p, q) at h in cc)
  ]
]

trim_start-le : (s : String) → chars (trim_start s) ≤ chars s
unfolding trim_start
trim_start-le String.[] = omega arith
trim_start-le (String.◌∷◌ c s) = ground (arith, trim_start-le s)

drop_blocks-ends :
    (rounds : ℕ) (t : String)
    → chars t < rounds
    → (r : String) × (drop_blocks rounds t ≡ some r) × (after_block r ≡ none)
unfolding drop_blocks
drop_blocks-ends zero t h = absurd (omega arith)
drop_blocks-ends (suc rounds) t h = elim (Option-cases (after_block (trim_start t))) [
  | inl n ↦ (trim_start t, rw (drop_blocks, n) refl, n)
  | inr (rest, e) ↦
      let shorter = after_block-lt (trim_start t) rest e in
      let trimmed = trim_start-le t in
      let (r, d, stop) = drop_blocks-ends rounds rest (omega arith) in
      (r, rw (drop_blocks, e) d, stop)
]

abbrev IsLast : String × Char → String → Char → Type 0
IsLast p b e = ◌≡◌ {A = Option (String × Char)} (some p) (some (b, e))

last_end-some :
    (s b : String) (e : Char)
    → last_end s ≡ some (b, e)
    → (rest : String) × (s ≡ b ⧺ String.◌∷◌ e rest) × (ends_sentence e ≡ true)
unfolding last_end
last_end-some String.[] b e h = absurd (cc)
last_end-some (String.◌∷◌ c s) b e h = elim (Option-cases (last_end s)) [
  | inr ((b', e'), l) ↦
      let (rest, split, ends) = last_end-some s b' e' l in
      let whole : IsLast (String.◌∷◌ c b', e') b e = rw (last_end, l) at h in
      let joined : String.◌∷◌ c s ≡ String.◌∷◌ c b' ⧺ String.◌∷◌ e' rest =
        ap (String.◌∷◌ c) split ∙ sym (cons-append c b' (String.◌∷◌ e' rest)) in
      let front : String.◌∷◌ c b' ≡ b = cc in let end : e' ≡ e = cc in (rest, cc, cc)
  | inl n ↦ elim (Bool-cases (ends_sentence c)) [
    | inl y ↦
        let whole : IsLast ("", c) b e = rw (last_end, n, y) at h in
        let front : "" ≡ b = cc in
        let end : c ≡ e = cc in let all = nil-append (String.◌∷◌ c s) in (s, cc, cc)
    | inr o ↦ absurd (
        let z : ◌≡◌ {A = Option (String × Char)} none (some (b, e)) = rw (last_end, n, o) at h in
        cc)
  ]
]

-- The line itself, or what it has up to an end of a sentence.
abbrev pub IsCut : String → String → Type 0
IsCut line cut =
    (cut ≡ line)
    ⊎ ((b : String) × (e : Char) × (rest : String) × (cut ≡ b ⧺ String.◌∷◌ e "")
        × (ends_sentence e ≡ true)
        × (line ≡ cut ⧺ rest))

cut_tail-IsCut : (line : String) → IsCut line (cut_tail line)
unfolding cut_tail
cut_tail-IsCut line = elim (Bool-cases (not (str_eq line "") && not (ends_well line))) [
  | inr well ↦ inl (rw (cut_tail, well) refl)
  | inl loose ↦ elim (Option-cases (last_end line)) [
    | inl n ↦ inl (rw (cut_tail, loose, n) refl)
    | inr ((b, e), l) ↦ elim (Bool-cases (leb 20 (len b))) [
      | inr short ↦ inl (rw (cut_tail, loose, l, short) refl)
      | inl long ↦
          let (rest, split, ends) = last_end-some line b e l in
          let cut : cut_tail line ≡ b ⧺ String.◌∷◌ e "" = rw (cut_tail, loose, l, long) refl in
          let joined =
            append_assoc b (String.◌∷◌ e "") rest
            ∙ ap (λ r. b ⧺ r) (cons-append e "" rest ∙ ap (String.◌∷◌ e) (nil-append rest)) in
          inr (b, e, rest, cut, ends, split ∙ sym joined ∙ ap (λ x. x ⧺ rest) (sym cut))
    ]
  ]
]

-- The blocks in front of a completion are all dropped, however many there are: what is left begins with
-- no closed block; and the line made of it is that text, trimmed of space and quotation marks, whole or
-- up to the end of a sentence.
pub clean_line-IsCut :
    (raw : String)
    → (r : String) × (drop_blocks (suc (chars (trim raw))) (trim raw) ≡ some r)
      × (after_block r ≡ none)
      × IsCut (trim (trim_end_matches "\"" (trim_start_matches "\"" (trim r)))) (clean_line raw)
unfolding clean_line
clean_line-IsCut raw =
    let (r, d, stop) = drop_blocks-ends (suc (chars (trim raw))) (trim raw) (omega arith) in
    let line = λ (x : String). trim (trim_end_matches "\"" (trim_start_matches "\"" (trim x))) in
    (
      r,
      d,
      stop,
      subst (λ (o : Option String). IsCut (line r) (cut_tail (line (unwrap_or o "")))) (sym d)
          (cut_tail-IsCut (line r)),
    )
