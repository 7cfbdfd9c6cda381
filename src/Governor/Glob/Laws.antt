-- ===== src/Governor/Glob/Laws.antt =====
-- What the glob matcher accepts, and two ways in which `*` differs from its comment.
use text.Mathlib.TextLemmas.{cons-append, nil-append}
use Prim.Native.Char.{Char, code}
use mathlib.Core.Path.{ap₂}
use text.Mathlib.TextEquality.{Char-path}
use pan.Prelude.{
  sym, subst, ◌&&◌, and_parts, ==_iff, ◌≡◌, refl, Bool, true, false, String, arith, same_char,
  Bool-cases, inl, inr, ◌⧺◌, ◌↔◌,
}
use pan.Governor.Glob.{is_empty, any_rest_at_no_slash, one_char, glob_match_rec, glob_match_simple}

any_rest_at_no_slash_end :
    (try : String → Bool) (s : String) → try String.[] ≡ true → any_rest_at_no_slash try s ≡ true
unfolding any_rest_at_no_slash
any_rest_at_no_slash_end try String.[] h = h
any_rest_at_no_slash_end try (String.◌∷◌ c s) h = ground (arith, any_rest_at_no_slash_end try s h)

-- The code's `*` does cross `/`: the pattern `*` matches every path.
pub star_matches_all : (path : String) → glob_match_simple "*" path ≡ true
unfolding glob_match_simple
star_matches_all path = any_rest_at_no_slash_end is_empty path refl

slash_at_other :
    (q : String) (c : Char) (s : String)
    → same_char c "/" ≡ false
    → glob_match_rec (String.◌∷◌ "/" q) (String.◌∷◌ c s) ≡ false
unfolding glob_match_rec
slash_at_other String.[] c s h = ground arith
slash_at_other (String.◌∷◌ d String.[]) c s h = ground arith
slash_at_other (String.◌∷◌ d (String.◌∷◌ e q)) c s h = ground arith

slash_at_end : (q : String) → glob_match_rec (String.◌∷◌ "/" q) String.[] ≡ false
unfolding glob_match_rec
slash_at_end String.[] = refl
slash_at_end (String.◌∷◌ d String.[]) = refl
slash_at_end (String.◌∷◌ d (String.◌∷◌ e q)) = refl

never_at_slash :
    (q s : String) → any_rest_at_no_slash (λ t. glob_match_rec (String.◌∷◌ "/" q) t) s ≡ false
unfolding any_rest_at_no_slash
never_at_slash q String.[] = slash_at_end q
never_at_slash q (String.◌∷◌ c s) = elim (Bool-cases (same_char c "/")) [
  | inl e ↦ rw e (never_at_slash q s)
  | inr e ↦ rw (e, slash_at_other q c s e) (never_at_slash q s)
]

-- A pattern that begins with `*` and a `/` behind it matches no path: the loop never stops before a
-- `/`, where the rest of the pattern would have to begin.
pub star_before_slash_fails : (q path : String) → glob_match_simple ("*/" ⧺ q) path ≡ false
unfolding glob_match_simple
star_before_slash_fails q path = rw (star_slash q) (fails q)
  where
    star_slash : (q : String) → "*/" ⧺ q ≡ String.◌∷◌ "*" (String.◌∷◌ "/" q)
    star_slash q = rw (cons-append "*" "/" q) (rw (cons-append "/" "" q) (rw nil-append))

    fails : (q : String) → glob_match_rec (String.◌∷◌ "*" (String.◌∷◌ "/" q)) path ≡ false
    fails String.[] = never_at_slash String.[] path
    fails (String.◌∷◌ e q) = never_at_slash (String.◌∷◌ e q) path

-- `**` matches every path, also one with `/`.
pub stars_match_all : (path : String) → glob_match_simple "**" path ≡ true
unfolding glob_match_simple
stars_match_all String.[] = refl
stars_match_all (String.◌∷◌ c s) = stars_match_all s

-- A text without the three special characters.
abbrev pub IsLiteral : String → Type 0
IsLiteral String.[] = Unit
IsLiteral (String.◌∷◌ c p) = (same_char c "*" ≡ false) × (same_char c "?" ≡ false) × IsLiteral p

glob-one_char :
    (c : Char) (p s : String)
    → same_char c "*" ≡ false
    → glob_match_rec (String.◌∷◌ c p) s ≡ one_char c (λ t. glob_match_rec p t) s
unfolding glob_match_rec
glob-one_char c String.[] s h = rw h
glob-one_char c (String.◌∷◌ d String.[]) s h = rw h
glob-one_char c (String.◌∷◌ d (String.◌∷◌ e p)) s h = rw h

literal-eq : (p s : String) → IsLiteral p → glob_match_rec p s ≡ true → p ≡ s
unfolding one_char
literal-eq String.[] String.[] h m = refl
literal-eq String.[] (String.◌∷◌ c s) h m = let m' : false ≡ true = unfold glob_match_rec in m in cc
literal-eq (String.◌∷◌ c p) String.[] h m =
    let m' : false ≡ true = rw (glob-one_char c p String.[] h.0) at m in cc
literal-eq (String.◌∷◌ c p) (String.◌∷◌ d s) h m =
    let step : (same_char d c && glob_match_rec p s) ≡ true =
      rw (h.1) at (rw (glob-one_char c p (String.◌∷◌ d s) h.0) at m) in
    let (same, rest) = and_parts (same_char d c) (glob_match_rec p s) step in
    ap₂ String.◌∷◌ (sym (Char-path d c ((==_iff _ _).0 same))) (literal-eq p s h.2 rest)

literal_self : (p : String) → IsLiteral p → glob_match_rec p p ≡ true
unfolding one_char
literal_self String.[] h = unfold glob_match_rec in refl
literal_self (String.◌∷◌ c p) h =
    rw (glob-one_char c p (String.◌∷◌ c p) h.0)
      (rw (h.1) (rw ((==_iff (code c) (code c)).1 refl) (literal_self p h.2)))

-- A pattern without `*` and `?` matches the path that it spells, and no other.
pub glob-literal : (p s : String) → IsLiteral p → (glob_match_simple p s ≡ true) ↔ (p ≡ s)
unfolding glob_match_simple
glob-literal p s h =
    (literal-eq p s h, λ e. subst (λ t. glob_match_rec p t ≡ true) e (literal_self p h))
