-- ===== src/Caps/State/Laws.antt =====
-- `cap.state` is a map from keys to values, however its calls and their writes of the file are interleaved.
use pan.Prelude.{
  ◌≡◌, refl, ap, ◌∙◌, String, List, [], ◌∷◌, ◌++◌, Option, none, some, eq_iff, bind, unwrap_or,
  if◌then◌else◌, str_eq, Bool-cases, Option-cases, inl, inr, All, ◌⊎◌,
}
use pan.Json.{Value, null, get, as_str}
use pan.Table.{Table, lookup, lookup-insert, lookup-remove}
use pan.Caps.State.{Storage, Locked, answers, saves, saved, run_state, begin_state}

-- The map that a call leaves, said of the map alone.
unfoldable pub after_call : String → Value → (String → Option Value) → String → Option Value
after_call capability args m j = elim (bind (get args "key") as_str) [
  | none ↦ m j
  | some key ↦
      if str_eq capability "cap.state.set"
      then (if str_eq key j then some (unwrap_or (get args "value") null) else m j)
      else if str_eq capability "cap.state.delete"
      then (if str_eq key j then none else m j)
      else m j
]

-- A call: its capability and its arguments.
abbrev pub Call : Type 0
Call = String × Value

-- The map that calls leave, the last of them first.
abbrev pub after_calls : List Call → (String → Option Value) → String → Option Value
after_calls [] m = m
after_calls (c ∷ cs) m = after_call c.0 c.1 (after_calls cs m)

-- A snapshot that is written is the table that the call leaves.
abbrev IsSnapshot : Locked × Table Value → Type 0
IsSnapshot (answers r, t) = Unit
IsSnapshot (saves m, t) = m ≡ t

lookup-run_state :
    (capability key : String) (args : Value) (t : Table Value) (j : String)
    → lookup j (run_state capability key args t).1 ≡ (
        if str_eq capability "cap.state.set"
        then (if str_eq key j then some (unwrap_or (get args "value") null) else lookup j t)
        else if str_eq capability "cap.state.delete"
        then (if str_eq key j then none else lookup j t)
        else lookup j t)
unfolding run_state
lookup-run_state capability key args t j = elim (Bool-cases (str_eq capability "cap.state.set")) [
  | inl a ↦ rw (run_state, a) (lookup-insert key j (unwrap_or (get args "value") null) t)
  | inr a ↦ elim (Bool-cases (str_eq capability "cap.state.delete")) [
    | inl e ↦
        rw (run_state, a, e, (eq_iff capability "cap.state.delete").0 e) (lookup-remove key j t)
    | inr e ↦ elim (Bool-cases (str_eq capability "cap.state.get")) [
      | inl b ↦ rw (run_state, a, b, e) refl
      | inr b ↦ elim (Bool-cases (str_eq capability "cap.state.list")) [
        | inl c ↦ rw (run_state, a, b, c, e) refl
        | inr c ↦ elim (Bool-cases (str_eq capability "cap.state.namespaces")) [
          | inl f ↦ rw (run_state, a, b, c, e, f) refl
          | inr f ↦ rw (run_state, a, b, c, e, f) refl
        ]
      ]
    ]
  ]
]

lookup-begin_state :
    (capability : String) (args : Value) (t : Table Value) (j : String)
    → lookup j (begin_state capability args t).1 ≡ after_call capability args (λ k. lookup k t) j
unfolding begin_state after_call
lookup-begin_state capability args t j = elim (Option-cases (bind (get args "key") as_str)) [
  | inl e ↦ rw (begin_state, after_call, e) refl
  | inr (key, e) ↦ rw (begin_state, after_call, e) (lookup-run_state capability key args t j)
]

-- The table, the content of the file, and the snapshots of the calls that have yet to write theirs.
pub record Running : Type 0 where
  pub store : Table Value
  pub file : Option String
  pub unwritten : List (Table Value)

abbrev pub with_snapshot : Locked → List (Table Value) → List (Table Value)
with_snapshot (answers r) ms = ms
with_snapshot (saves m) ms = m ∷ ms

-- What calls come to that run beside each other, the last of them first: any call takes the lock, and any
-- snapshot not yet written is written.
pub data Reached (io : Storage) (path : Option String) (t : Table Value) (file : Option String)
    : List Call → Running → Type 0 where
  starts : Reached io path t file [] (record { store = t; file = file; unwritten = [] })
  begins :
      {cs : List Call} {s : Running} (c : Call)
      → Reached io path t file cs s
      → Reached io path t file (c ∷ cs) (record s {
        store = (begin_state c.0 c.1 s.store).1;
        unwritten = with_snapshot (begin_state c.0 c.1 s.store).0 s.unwritten;
      })
  writes :
      {cs : List Call} {s : Running} (before : List (Table Value)) (m : Table Value)
      (behind : List (Table Value))
      → s.unwritten ≡ before ++ m ∷ behind
      → Reached io path t file cs s
      → Reached io path t file cs
          (record s { file = (saved io m path s.file).1; unwritten = before ++ behind })

-- The table is, as a map, what the first of the calls have left.
abbrev pub IsPast : Table Value → List Call → Table Value → Type 0
IsPast t cs m =
    (later earlier : List Call) × (cs ≡ later ++ earlier)
    × ((j : String) → lookup j m ≡ after_calls earlier (λ k. lookup k t) j)

-- What is so of the table, of the snapshots to be written and of the file, after the calls.
pub record Agrees (io : Storage) (path : Option String) (t : Table Value) (file : Option String)
    (cs : List Call) (s : Running) : Type 0 where
  pub in_memory : (j : String) → lookup j s.store ≡ after_calls cs (λ k. lookup k t) j
  pub snapshots : All (IsPast t cs) s.unwritten
  pub on_disk :
      (s.file ≡ file)
      ⊎ ((m : Table Value) × (before : Option String) × IsPast t cs m
          × (s.file ≡ (saved io m path before).1))

module _ (t : Table Value) where
  after_begin :
      (c : Call) (cs : List Call) (store : Table Value)
      → ((j : String) → lookup j store ≡ after_calls cs (λ k. lookup k t) j)
      → (j : String)
      → lookup j (begin_state c.0 c.1 store).1 ≡ after_calls (c ∷ cs) (λ k. lookup k t) j
  unfolding after_call
  after_begin c cs store h j =
      lookup-begin_state c.0 c.1 store j ∙ ap (λ x. after_call c.0 c.1 (λ k. x) j) (h j)
