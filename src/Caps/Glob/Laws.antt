-- ===== src/Caps/Glob/Laws.antt =====
-- What a single star of `cap.fs.glob` matches: nothing before a slash of the pattern.
use Prim.Native.Char.{Char}
use pan.Prelude.{◌≡◌, refl, false, Bool, String, same_char, Bool-cases, inl, inr}
use pan.Caps.Glob.{star_suffix, step, glob_match}

star_suffix-never :
    (f : String → Bool) (t : String)
    → (f "" ≡ false)
    → ((c : Char) (s : String) → same_char c "/" ≡ false → f (String.◌∷◌ c s) ≡ false)
    → star_suffix f t ≡ false
unfolding star_suffix
star_suffix-never f String.[] e h = e
star_suffix-never f (String.◌∷◌ c s) e h = elim (Bool-cases (same_char c "/")) [
  | inl g ↦ rw (star_suffix, g) (star_suffix-never f s e h)
  | inr g ↦ rw (star_suffix, g, h c s g) (star_suffix-never f s e h)
]

slash-empty : (q : String) → glob_match (String.◌∷◌ "/" q) "" ≡ false
unfolding glob_match step
slash-empty String.[] = refl
slash-empty (String.◌∷◌ d String.[]) = refl
slash-empty (String.◌∷◌ d (String.◌∷◌ e p)) = refl

slash-other :
    (q : String) (c : Char) (s : String)
    → same_char c "/" ≡ false
    → glob_match (String.◌∷◌ "/" q) (String.◌∷◌ c s) ≡ false
unfolding glob_match step
slash-other String.[] c s h = rw h refl
slash-other (String.◌∷◌ d String.[]) c s h = rw h refl
slash-other (String.◌∷◌ d (String.◌∷◌ e p)) c s h = rw h refl

-- A pattern that goes on with a slash behind a single star at its start matches no path at all.
pub glob_match-star_slash :
    (p t : String) → glob_match (String.◌∷◌ "*" (String.◌∷◌ "/" p)) t ≡ false
unfolding glob_match step
glob_match-star_slash String.[] t =
    star_suffix-never (λ s. glob_match (String.◌∷◌ "/" String.[]) s) t (slash-empty String.[])
      (slash-other String.[])
glob_match-star_slash (String.◌∷◌ e p) t =
    star_suffix-never (λ s. glob_match (String.◌∷◌ "/" (String.◌∷◌ e p)) s) t
      (slash-empty (String.◌∷◌ e p)) (slash-other (String.◌∷◌ e p))
