-- ===== src/Agent/Session/Laws.antt =====
-- What a session remembers, and what a reopened one does.
use Prim.Native.Char.{Char}
use mathlib.Core.List.{append-nil, append_assoc}
use text.Mathlib.TextLemmas.{cons-append, nil-append, append_assoc as text_assoc}
use pan.Prelude.{
  ℕ, zero, suc, ◌+◌, ◌-◌, ◌≤◌, ◌≡◌, refl, ap, subst, sym, ◌∙◌, true, false, Bool, String, List, [],
  ◌∷◌, ◌++◌, Option, none, some, length, drop, ltb, arith, same_char, ◌⧺◌, Bool-cases, inl, inr,
  length-append, length-drop, All,
}
use pan.Config.Expand.Laws.{Each}
use pan.Agent.Session.{
  SessionTurn, SessionStore, trim_to, lines, Lines, read_lines, read_file, new, with_max_turns,
  append_turn, written, turns,
}

-- The last `n` of a list.
abbrev pub last_of {ℓ} : {A : Type ℓ} → ℕ → List A → List A
last_of n xs = drop (length xs - n) xs

module _ {ℓ} {A : Type ℓ} where
  pub drop-nil : (n : ℕ) → ◌≡◌ {A = List A} (drop n []) []
  drop-nil zero = refl
  drop-nil (suc n) = refl

  pub trim_to-last : (n : ℕ) (xs : List A) → trim_to n xs ≡ last_of n xs
  unfolding trim_to
  trim_to-last n [] = sym (drop-nil (0 - n))
  trim_to-last n (x ∷ xs) =
      let behind = trim_to-last n xs in
      elim (Bool-cases (ltb n (length (x ∷ xs)))) [
        | inl e ↦
            let more : length (x ∷ xs) - n ≡ suc (length xs - n) = ground arith in
            rw (trim_to, e) (behind ∙ sym (ap (λ k. drop k (x ∷ xs)) more))
        | inr e ↦
            let fits : length (x ∷ xs) - n ≡ 0 = ground arith in
            rw (trim_to, e) (sym (ap (λ k. drop k (x ∷ xs)) fits))
      ]

  drop-drop : (m n : ℕ) (xs : List A) → drop m (drop n xs) ≡ drop (n + m) xs
  drop-drop m zero xs = ap (λ k. drop k xs) (omega arith)
  drop-drop m (suc n) [] = drop-nil m ∙ sym (drop-nil (suc n + m))
  drop-drop m (suc n) (x ∷ xs) =
      let more : suc n + m ≡ suc (n + m) = omega arith in
      drop-drop m n xs ∙ sym (ap (λ k. drop k (x ∷ xs)) more)

  drop-append_short : (n : ℕ) (xs ys : List A) → n ≤ length xs → drop n (xs ++ ys) ≡ drop n xs ++ ys
  drop-append_short zero xs ys h = refl
  drop-append_short (suc n) [] ys h = absurd (omega arith)
  drop-append_short (suc n) (x ∷ xs) ys h = drop-append_short n xs ys (omega arith)

  pub last_of-append :
      (n : ℕ) (xs ys : List A) → last_of n (last_of n xs ++ ys) ≡ last_of n (xs ++ ys)
  last_of-append n xs ys =
      let k = length xs - n in
      let short = drop-append_short k xs ys (omega arith) in
      let a = length-append (drop k xs) ys in
      let b = length-append xs ys in
      let c = length-drop k xs in
      let sum : k + (length (drop k xs ++ ys) - n) ≡ length (xs ++ ys) - n = omega arith in
      ap (drop (length (drop k xs ++ ys) - n)) (sym short)
      ∙ drop-drop (length (drop k xs ++ ys) - n) k (xs ++ ys)
      ∙ ap (λ j. drop j (xs ++ ys)) sum

-- The store and its file after turns, each with whether the file could be written.
unfoldable pub appending :
    Lines → List (SessionTurn × Bool) → SessionStore × Option String → SessionStore × Option String
unfolding append_turn
appending io [] s = s
appending io ((t, w) ∷ ts) s = appending io ts (append_turn io w t s)

abbrev pub turns_of : List (SessionTurn × Bool) → List SessionTurn
turns_of [] = []
turns_of ((t, w) ∷ ts) = t ∷ turns_of ts

-- Appending a run of turns leaves, of all turns that the store has ever had, the last `max_turns`; that
-- the file could not be written changes nothing.
pub turns-appending :
    (io : Lines) (ts : List (SessionTurn × Bool)) (s : SessionStore) (file : Option String)
    → turns (appending io ts (s, file)).0 ≡ last_of s.max_turns (s.cached ++ turns_of ts)
unfolding turns appending append_turn
turns-appending io [] s file = ap (last_of s.max_turns) (sym (append-nil s.cached))
turns-appending io ((t, w) ∷ ts) s file =
    turns-appending io ts (append_turn io w t (s, file)).0 (append_turn io w t (s, file)).1
    ∙ ap (λ c. last_of s.max_turns (c ++ turns_of ts))
        (trim_to-last s.max_turns (s.cached ++ t ∷ []))
    ∙ last_of-append s.max_turns (s.cached ++ t ∷ []) (turns_of ts)
    ∙ ap (last_of s.max_turns) (append_assoc s.cached (t ∷ []) (turns_of ts))

abbrev pub IsPlain : Char → Type 0
IsPlain c = (same_char c "\n" ≡ false) × (same_char c "\r" ≡ false)

lines-line :
    (line rest : String)
    → Each IsPlain line
    → lines (line ⧺ String.◌∷◌ "\n" rest) ≡ line ∷ lines rest
unfolding lines
lines-line String.[] rest h = rw (nil-append (String.◌∷◌ "\n" rest)) refl
lines-line (String.◌∷◌ c line) rest ((p, q), h) =
    rw (cons-append c line (String.◌∷◌ "\n" rest), lines, p, q, lines-line line rest h) refl

-- What the json crate does with a turn: one line, from which the turn is read again.
abbrev pub IsWritable : Lines → SessionTurn → Type 0
IsWritable io t =
    (line : String) × (io.to_line t ≡ some line) × (io.from_line line ≡ some t) × Each IsPlain line

-- The file's text, of its lines.
unfoldable pub text_of : List String → String
text_of [] = ""
text_of (l ∷ ls) = l ⧺ String.◌∷◌ "\n" (text_of ls)

text_of-append : (ls : List String) (l : String) → text_of (ls ++ l ∷ []) ≡ text_of ls ⧺ (l ⧺ "\n")
unfolding text_of
text_of-append [] l = sym (nil-append (l ⧺ "\n"))
text_of-append (k ∷ ls) l =
    ap (λ r. k ⧺ String.◌∷◌ "\n" r) (text_of-append ls l)
    ∙ sym (
        text_assoc k (String.◌∷◌ "\n" (text_of ls)) (l ⧺ "\n")
        ∙ ap (λ r. k ⧺ r) (cons-append "\n" (text_of ls) (l ⧺ "\n")))

-- The lines of the file and the turns that they were written for.
abbrev pub Holds : Lines → List String → List SessionTurn → Type 0
Holds io [] [] = Unit
Holds io [] (t ∷ ts) = ⊥
Holds io (l ∷ ls) [] = ⊥
Holds io (l ∷ ls) (t ∷ ts) = (io.from_line l ≡ some t) × Each IsPlain l × Holds io ls ts

Holds-append :
    (io : Lines) (ls : List String) (ts : List SessionTurn) (l : String) (t : SessionTurn)
    → Holds io ls ts
    → io.from_line l ≡ some t
    → Each IsPlain l
    → Holds io (ls ++ l ∷ []) (ts ++ t ∷ [])
Holds-append io [] [] l t h r e = (r, e, tt)
Holds-append io [] (u ∷ ts) l t h r e = absurd h
Holds-append io (k ∷ ls) [] l t h r e = absurd h
Holds-append io (k ∷ ls) (u ∷ ts) l t (p, q, h) r e = (p, q, Holds-append io ls ts l t h r e)

read-Holds :
    (io : Lines) (ls : List String) (ts : List SessionTurn)
    → Holds io ls ts
    → read_lines io (lines (text_of ls)) ≡ ts
unfolding read_lines text_of lines
read-Holds io [] [] h = refl
read-Holds io [] (t ∷ ts) h = absurd h
read-Holds io (l ∷ ls) [] h = absurd h
read-Holds io (l ∷ ls) (t ∷ ts) (p, q, h) =
    rw (lines-line l (text_of ls) q, read_lines, p) (ap (t ∷◌) (read-Holds io ls ts h))

-- A file that is missing, or that has been written by the store alone.
abbrev pub IsFileOf : Lines → Option String → List SessionTurn → Type 0
IsFileOf io none ts = ts ≡ []
IsFileOf io (some content) ts = (ls : List String) × (content ≡ text_of ls) × Holds io ls ts

append_turn-IsFileOf :
    (io : Lines) (t : SessionTurn) (s : SessionStore) (file : Option String) (ts : List SessionTurn)
    → IsWritable io t
    → IsFileOf io file ts
    → IsFileOf io (append_turn io true t (s, file)).1 (ts ++ t ∷ [])
unfolding append_turn written text_of
append_turn-IsFileOf io t s none ts (l, p, q, e) f =
    rw (p, written)
      (subst (λ us. IsFileOf io (some (l ⧺ "\n")) (us ++ t ∷ [])) (sym f)
        (l ∷ [], refl, (q, e, tt)))
append_turn-IsFileOf io t s (some content) ts (l, p, q, e) (ls, g, h) =
    rw (p, written)
      (
        ls ++ l ∷ [],
        ap (λ c. c ⧺ (l ⧺ "\n")) g ∙ sym (text_of-append ls l),
        Holds-append io ls ts l t h q e,
      )

-- The turns, each with a file that can be written.
abbrev pub all_written : List SessionTurn → List (SessionTurn × Bool)
all_written [] = []
all_written (t ∷ ts) = (t, true) ∷ all_written ts

read_file-IsFileOf :
    (io : Lines) (file : Option String) (ts : List SessionTurn)
    → IsFileOf io file ts
    → read_file io file ≡ ts
unfolding read_file
read_file-IsFileOf io none ts f = sym f
read_file-IsFileOf io (some content) ts (ls, g, h) =
    ap (λ c. read_lines io (lines c)) g ∙ read-Holds io ls ts h

appending-IsFileOf :
    (io : Lines) (ts : List SessionTurn) (s : SessionStore) (file : Option String)
    (us : List SessionTurn)
    → All (IsWritable io) ts
    → IsFileOf io file us
    → IsFileOf io (appending io (all_written ts) (s, file)).1 (us ++ ts)
unfolding appending
appending-IsFileOf io [] s file us w f = subst (IsFileOf io file) (sym (append-nil us)) f
appending-IsFileOf io (t ∷ ts) s file us (w, ws) f =
    let (s', file') = append_turn io true t (s, file) in
    subst (IsFileOf io (appending io (all_written ts) (s', file')).1) (append_assoc us (t ∷ []) ts)
      (appending-IsFileOf io ts s' file' (us ++ t ∷ []) ws
        (append_turn-IsFileOf io t s file us w f))

turns_of-written : (ts : List SessionTurn) → turns_of (all_written ts) ≡ ts
turns_of-written [] = refl
turns_of-written (t ∷ ts) = ap (t ∷◌) (turns_of-written ts)

-- A store that is opened on a file of turns, and appends turns that the json crate writes on one line
-- and reads back, shows the same turns as a store that is opened on the file afterwards.
pub turns-reopened :
    (io : Lines) (file : Option String) (us ts : List SessionTurn) (n : ℕ)
    → IsFileOf io file us
    → All (IsWritable io) ts
    → turns (
        with_max_turns
          (new io (appending io (all_written ts) (with_max_turns (new io file) n, file)).1)
          n)
      ≡ turns (appending io (all_written ts) (with_max_turns (new io file) n, file)).0
unfolding turns new with_max_turns
turns-reopened io file us ts n f w =
    let opened = with_max_turns (new io file) n in
    ap (last_of n)
      (read_file-IsFileOf io _ (us ++ ts) (appending-IsFileOf io ts opened file us w f))
    ∙ sym (
        turns-appending io (all_written ts) opened file
        ∙ ap (last_of n) (
            ap (λ c. c ++ turns_of (all_written ts)) (read_file-IsFileOf io file us f)
            ∙ ap (us ++◌) (turns_of-written ts)))
