-- ===== src/Llm/Download/Split.antt =====
-- The blank line between the head and the content of an answer.
use pan.Prelude.{
  ◌<◌, ◌≡◌, refl, ap, ◌∙◌, true, [], ◌∷◌, ◌++◌, Option, some, arith, length, drop, ltb, ltb→lt,
  Bool-cases, Option-cases, inl, inr, ◌⊎◌, ◌==◌, ==_iff, and_parts, length-drop,
}
use pan.Llm.Download.{Bytes, prefix_of, split_at, split_http_response, crlf_crlf, lf_lf}

prefix_of-drop : (p bs : Bytes) → prefix_of p bs ≡ true → bs ≡ p ++ drop (length p) bs
prefix_of-drop [] bs h = refl
prefix_of-drop (c ∷ p) [] h = absurd (cc)
prefix_of-drop (c ∷ p) (b ∷ bs) h =
    let (same, rest) = and_parts (c == b) (prefix_of p bs) h in
    let e = (==_iff c b).0 same in let t = prefix_of-drop p bs rest in cc

abbrev IsSplit : Bytes × Bytes → Bytes → Bytes → Type 0
IsSplit p h t = ◌≡◌ {A = Option (Bytes × Bytes)} (some p) (some (h, t))

split_at-some :
    (sep bs h t : Bytes) → split_at sep bs ≡ some (h, t) → (bs ≡ h ++ (sep ++ t)) × (0 < length t)
unfolding split_at
split_at-some sep [] h t e = absurd (cc)
split_at-some sep (b ∷ bs) h t e = elim (Bool-cases (ltb (length sep) (length (b ∷ bs)))) [
  | inr short ↦ absurd (ground arith)
  | inl long ↦ elim (Bool-cases (prefix_of sep (b ∷ bs))) [
    | inl here ↦
        let p : IsSplit ([], drop (length sep) (b ∷ bs)) h t = rw (split_at, long, here) at e in
        let split = prefix_of-drop sep (b ∷ bs) here in
        let size = length-drop (length sep) (b ∷ bs) in
        let shorter = ltb→lt _ _ long in
        let rest : drop (length sep) (b ∷ bs) ≡ t = cc in (cc, omega (arith, ap length rest))
    | inr later ↦ elim (Option-cases (split_at sep bs)) [
      | inl n ↦ absurd (ground arith)
      | inr ((h', t'), s) ↦
          let below = split_at-some sep bs h' t' s in
          let q : IsSplit (b ∷ h', t') h t = rw (split_at, long, later, s) at e in
          let first = below.0 in
          let rest : t' ≡ t = cc in (cc, omega (arith, below.1, ap length rest))
    ]
  ]
]

-- The two parts of an answer, around one of the separators.
pub split_http_response-some :
    (bytes h t : Bytes)
    → split_http_response bytes ≡ some (h, t)
    → ((bytes ≡ h ++ (crlf_crlf ++ t)) ⊎ (bytes ≡ h ++ (lf_lf ++ t))) × (0 < length t)
unfolding split_http_response
split_http_response-some bytes h t e = elim (Option-cases (split_at crlf_crlf bytes)) [
  | inr (p, s) ↦
      let found = split_at-some crlf_crlf bytes h t (s ∙ (rw (split_http_response, s) at e)) in
      (inl found.0, found.1)
  | inl n ↦
      let found = split_at-some lf_lf bytes h t (rw (split_http_response, n) at e) in
      (inr found.0, found.1)
]
