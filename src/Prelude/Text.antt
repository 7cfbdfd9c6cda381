-- ===== src/Prelude/Text.antt =====
-- The operations of Rust's `str` that the program uses, over the native text.
use Prim.Native.Char.{Char, code}
use Prim.Native.String.{String, ◌++◌}
use mathlib.Core.Path.{◌≡◌, refl, ap₂, sym}
use mathlib.Core.Bool.{Bool, false, ◌||◌}
use mathlib.Core.Logic.{inl, inr}
use mathlib.Core.Option
use mathlib.Core.Option.{Option, none, some}
use text.Mathlib.Text.{◌==◌ as str_eq}
use text.Mathlib.TextEquality.{Char-path}
use text.Mathlib.TextLemmas.{nil-append, cons-append}
use pan.Prelude.Tests.{◌==◌, if◌then◌else◌, ==_iff, Bool-cases}

abbrev pub same_char : Char → Char → Bool
same_char c d = code c == code d

-- `s.strip_prefix(p)`: the rest of `s` behind `p`.
unfoldable pub strip_prefix : String → String → Option String
strip_prefix String.[] s = some s
strip_prefix (String.◌∷◌ c p) String.[] = none
strip_prefix (String.◌∷◌ c p) (String.◌∷◌ d s) = if same_char c d then strip_prefix p s else none

-- `s.ends_with(p)`
unfoldable pub ends_with : String → String → Bool
ends_with String.[] p = str_eq String.[] p
ends_with (String.◌∷◌ c s) p = str_eq (String.◌∷◌ c s) p || ends_with s p

-- `s.starts_with(c)` for a character
abbrev pub starts_with_char : String → Char → Bool
starts_with_char String.[] c = false
starts_with_char (String.◌∷◌ d s) c = same_char d c

-- `s.split_once(c)`: what stands before the first `c`, and what stands behind it.
unfoldable pub split_once : Char → String → Option (String × String)
split_once c String.[] = none
split_once c (String.◌∷◌ d s) =
    let rest = Option.map (λ (p : String × String). (String.◌∷◌ d p.0, p.1)) (split_once c s) in
    if same_char d c then some (String.[], s) else rest

-- The text of which `strip_prefix` leaves `r` is the prefix with `r` behind it.
pub strip_prefix-append : (p s r : String) → strip_prefix p s ≡ some r → s ≡ p ++ r
unfolding strip_prefix
strip_prefix-append String.[] s r h = rw nil-append (cc)
strip_prefix-append (String.◌∷◌ c p) String.[] r h = cc
strip_prefix-append (String.◌∷◌ c p) (String.◌∷◌ d s) r h = elim (Bool-cases (same_char c d)) [
  | inl e ↦ rw (cons-append c p r) (
      ap₂ String.◌∷◌ (sym (Char-path c d ((==_iff _ _).0 e)))
        (strip_prefix-append p s r (rw e at h)))
  | inr e ↦ let stuck : none ≡ some r = rw e at h in cc
]

pub strip_prefix-append_self : (p r : String) → strip_prefix p (p ++ r) ≡ some r
unfolding strip_prefix
strip_prefix-append_self String.[] r = rw nil-append
strip_prefix-append_self (String.◌∷◌ c p) r =
    rw (cons-append c p r) (rw ((==_iff (code c) (code c)).1 refl) (strip_prefix-append_self p r))
