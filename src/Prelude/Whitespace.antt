-- ===== src/Prelude/Whitespace.antt =====
-- Rust's `trim` and `split_whitespace`, with Unicode's White_Space.
use Prim.Native.Char.{Char, code}
use Prim.Native.String.{String}
use mathlib.Core.Bool.{Bool, ◌&&◌, ◌||◌}
use mathlib.Core.List.{List, [], ◌∷◌}
use text.Mathlib.Text.{◌==◌ as str_eq}
use pan.Prelude.Tests.{◌==◌, leb, if◌then◌else◌}

-- `char::is_whitespace`
unfoldable pub is_whitespace : Char → Bool
is_whitespace c =
    let n = code c in
    (leb 9 n && leb n 13)
    || (n == 32)
    || (n == 133)
    || (n == 160)
    || (n == 5760)
    || (leb 8192 n && leb n 8202)
    || (n == 8232)
    || (n == 8233)
    || (n == 8239)
    || (n == 8287)
    || (n == 12288)

unfoldable pub trim_start : String → String
unfolding is_whitespace
trim_start String.[] = String.[]
trim_start (String.◌∷◌ c s) = if is_whitespace c then trim_start s else String.◌∷◌ c s

unfoldable pub trim_end : String → String
unfolding is_whitespace
trim_end String.[] = String.[]
trim_end (String.◌∷◌ c s) =
    let rest = trim_end s in
    if str_eq rest String.[] && is_whitespace c then String.[] else String.◌∷◌ c rest

unfoldable pub trim : String → String
unfolding trim_start trim_end
trim s = trim_end (trim_start s)

unfoldable pub is_blank : String → Bool
unfolding trim
is_blank s = str_eq (trim s) String.[]

-- The words of the text, with the one that it starts with, if it starts with one.
unfoldable words : String → String × List String
unfolding is_whitespace
words String.[] = (String.[], [])
words (String.◌∷◌ c s) =
    let (first, rest) = words s in
    if is_whitespace c
    then (String.[], if str_eq first String.[] then rest else first ∷ rest)
    else (String.◌∷◌ c first, rest)

unfoldable pub split_whitespace : String → List String
unfolding words
split_whitespace s =
    let (first, rest) = words s in if str_eq first String.[] then rest else first ∷ rest
