-- ===== src/Config/Expand/Laws.antt =====
-- What a text with variables expands to, piece by piece.
use Prim.Native.Char.{Char}
use text.Mathlib.TextLemmas.{cons-append, nil-append, append_assoc, append-nil}
use pan.Prelude.{◌≡◌, refl, ap, ◌∙◌, true, false, String, List, [], ◌∷◌, same_char, All, ◌⧺◌}
use pan.Config.Expand.{
  Environment, plain, braced, bare, with_char, value_of, name_char, expand, expand_env_vars,
}

-- The predicate holds of every character.
abbrev pub Each : (Char → Type 0) → String → Type 0
Each P String.[] = Unit
Each P (String.◌∷◌ c s) = P c × Each P s

-- A piece of a text: a character, a name in braces, and a bare name with the character that ends it.
pub data Piece : Type 0 where
  char : Char → Piece
  in_braces : String → Piece
  ended_by : Char → String → Char → Piece

unfoldable pub render : List Piece → String
render [] = ""
render (char c ∷ ps) = String.◌∷◌ c (render ps)
render (in_braces name ∷ ps) = String.◌∷◌ "$" (String.◌∷◌ "{" (name ⧺ String.◌∷◌ "}" (render ps)))
render (ended_by a name z ∷ ps) = String.◌∷◌ "$" (String.◌∷◌ a (name ⧺ String.◌∷◌ z (render ps)))

with_char-append :
    (name : String) (c : Char) (s : String) → with_char name c ⧺ s ≡ name ⧺ String.◌∷◌ c s
unfolding with_char
with_char-append name c s =
    append_assoc name (String.◌∷◌ c "") s
    ∙ ap (λ r. name ⧺ r) (cons-append c "" s ∙ ap (String.◌∷◌ c) (nil-append s))

module _ (env : Environment) where
  abbrev pub IsPiece : Piece → Type 0
  IsPiece (char c) = same_char c "$" ≡ false
  IsPiece (in_braces name) = Each (λ c. same_char c "}" ≡ false) name
  IsPiece (ended_by a name z) =
      (same_char a "{" ≡ false)
      × (name_char env a ≡ true)
      × Each (λ c. name_char env c ≡ true) name
      × (name_char env z ≡ false)

  -- The character that ends a bare name comes before the name's value.
  unfoldable pub meaning : List Piece → String
  meaning [] = ""
  meaning (char c ∷ ps) = String.◌∷◌ c (meaning ps)
  meaning (in_braces name ∷ ps) = value_of env name ⧺ meaning ps
  meaning (ended_by a name z ∷ ps) = String.◌∷◌ z (value_of env (String.◌∷◌ a name) ⧺ meaning ps)

  expand-braced :
      (name done rest : String)
      → Each (λ c. same_char c "}" ≡ false) name
      → expand env (name ⧺ String.◌∷◌ "}" rest) (braced done)
        ≡ value_of env (done ⧺ name) ⧺ expand env rest plain
  unfolding expand
  expand-braced String.[] done rest e = rw (nil-append (String.◌∷◌ "}" rest), append-nil done) refl
  expand-braced (String.◌∷◌ c name) done rest (e, es) =
      let behind = expand-braced name (with_char done c) rest es in
      let at = cons-append c name (String.◌∷◌ "}" rest) in
      let grown = with_char-append done c name in
      rw (at, expand, e) (behind ∙ ap (λ n. value_of env n ⧺ expand env rest plain) grown)

  expand-bare :
      (name done rest : String) (z : Char)
      → Each (λ c. name_char env c ≡ true) name
      → name_char env z ≡ false
      → expand env (name ⧺ String.◌∷◌ z rest) (bare done)
        ≡ String.◌∷◌ z (value_of env (done ⧺ name) ⧺ expand env rest plain)
  unfolding expand
  expand-bare String.[] done rest z e h =
      rw (nil-append (String.◌∷◌ z rest), append-nil done, expand, h) refl
  expand-bare (String.◌∷◌ c name) done rest z (e, es) h =
      let behind = expand-bare name (with_char done c) rest z es h in
      let grown = with_char-append done c name in
      rw (cons-append c name (String.◌∷◌ z rest), expand, e)
        (behind ∙ ap (λ n. String.◌∷◌ z (value_of env n ⧺ expand env rest plain)) grown)

  -- A text of characters that are no dollar sign, names in braces, and bare names that are not empty
  -- and have a character behind them, expands piece by piece: a name in braces to its value, and a bare
  -- name to the character that ends it with the value behind it.
  pub expand_env_vars-render :
      (ps : List Piece) → All IsPiece ps → expand_env_vars env (render ps) ≡ meaning ps
  unfolding expand_env_vars expand render meaning
  expand_env_vars-render [] h = refl
  expand_env_vars-render (char c ∷ ps) (h, hs) =
      let behind = expand_env_vars-render ps hs in rw (expand, h) (ap (String.◌∷◌ c) behind)
  expand_env_vars-render (in_braces name ∷ ps) (h, hs) =
      let behind = expand_env_vars-render ps hs in
      expand-braced name "" (render ps) h
      ∙ rw (nil-append name) (ap (λ r. value_of env name ⧺ r) behind)
  expand_env_vars-render (ended_by a name z ∷ ps) ((p, q, r, t), hs) =
      let behind = expand_env_vars-render ps hs in
      rw (expand, p, q)
        (expand-bare name (with_char "" a) (render ps) z r t
          ∙ rw (with_char-append "" a name, nil-append (String.◌∷◌ a name))
              (ap (λ r. String.◌∷◌ z (value_of env (String.◌∷◌ a name) ⧺ r)) behind))
