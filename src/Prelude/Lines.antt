-- ===== src/Prelude/Lines.antt =====
-- Lines, separators and numerals of texts, as the standard library reads them.
use Prim.Native.Char.{Char, code}
use Prim.Native.String.{String, []}
use text.Mathlib.Text.{◌==◌ as str_eq}
use mathlib.Core.Bool.{Bool, true, false, ◌&&◌}
use mathlib.Core.Option
use mathlib.Core.Option.{Option, none, some}
use mathlib.Core.List.{List}
use Prim.Native.Nat.{ℕ, ◌+◌, ◌-◌, ◌*◌}
use pan.Prelude.Tests.{ltb, leb, ◌==◌, if◌then◌else◌, is_some}
use pan.Prelude.Text.{same_char, strip_prefix, starts_with_char}

-- `starts_with`, of a text
unfoldable pub starts_with : String → String → Bool
unfolding strip_prefix
starts_with p s = is_some (strip_prefix p s)

-- `s.split_once(sep)`, of a text
unfoldable pub split_once_at : String → String → Option (String × String)
unfolding strip_prefix
split_once_at sep [] = Option.map (λ r. ("", r)) (strip_prefix sep "")
split_once_at sep (String.◌∷◌ c s) =
    let later =
      Option.map (λ (p : String × String). (String.◌∷◌ c p.0, p.1)) (split_once_at sep s) in
    elim (strip_prefix sep (String.◌∷◌ c s)) [ some r ↦ some ("", r) | none ↦ later ]

-- A character before the first of the lines.
unfoldable pub onto_first : Char → List String → List String
onto_first c List.[] = List.◌∷◌ (String.◌∷◌ c "") List.[]
onto_first c (List.◌∷◌ line lines) = List.◌∷◌ (String.◌∷◌ c line) lines

-- `s.lines()`: a line ends at a line feed, with the carriage return before it.
unfoldable pub lines : String → List String
unfolding onto_first
lines [] = List.[]
lines (String.◌∷◌ c s) =
    let rest = lines s in
    if same_char c "\n"
    then List.◌∷◌ "" rest
    else if same_char c "\r" && starts_with_char s "\n"
    then rest
    else onto_first c rest

-- The code of a character in ASCII lower case.
abbrev pub lower : Char → ℕ
lower c = if leb 65 (code c) && leb (code c) 90 then code c + 32 else code c

-- `s.to_ascii_lowercase().starts_with(p)`
unfoldable pub lowercase_starts_with : String → String → Bool
lowercase_starts_with [] s = true
lowercase_starts_with (String.◌∷◌ c p) [] = false
lowercase_starts_with (String.◌∷◌ c p) (String.◌∷◌ d s) =
    (code c == lower d) && lowercase_starts_with p s

-- `s.trim_end_matches(c)`
unfoldable pub trim_end_matches : Char → String → String
trim_end_matches c [] = ""
trim_end_matches c (String.◌∷◌ d s) =
    let rest = trim_end_matches c s in
    if str_eq rest "" && same_char d c then "" else String.◌∷◌ d rest

unfoldable pub number_below : ℕ → ℕ → String → Option ℕ
number_below bound n [] = some n
number_below bound n (String.◌∷◌ c s) =
    let more = n * 10 + (code c - 48) in
    let rest = number_below bound more s in
    if leb 48 (code c) && leb (code c) 57 && ltb more bound then rest else none

-- `s.parse::<u64>()` where the bound is 2^64: digits, behind an optional plus sign.
unfoldable pub parse_below : ℕ → String → Option ℕ
unfolding number_below
parse_below bound [] = none
parse_below bound (String.◌∷◌ c s) =
    if same_char c "+"
    then (if str_eq s "" then none else number_below bound 0 s)
    else number_below bound 0 (String.◌∷◌ c s)
