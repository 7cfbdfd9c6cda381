-- ===== src/Agent/History/Laws.antt =====
-- What a rolling history keeps of the turns that were committed.
use mathlib.Core.List.{append-nil, append_assoc}
use pan.Prelude.{ℕ, ◌*◌, ◌-◌, ◌≡◌, ap, sym, ◌∙◌, List, [], ◌∷◌, ◌++◌}
use pan.Json.{Value}
use pan.Schema.{Goal}
use pan.Loop.{RunReport}
use pan.Agent.Session.Laws.{last_of, trim_to-last, last_of-append, drop-nil}
use pan.Agent.History.{RollingConversationHistory, message, user_content, replies, commit}

unfoldable pub committing :
    List (Goal × RunReport) → RollingConversationHistory → RollingConversationHistory
unfolding commit
committing [] h = h
committing ((goal, report) ∷ more) h = committing more (commit h goal report)

-- What the turns say, in order: each goal, and each reply that is not empty.
unfoldable pub said : List (Goal × RunReport) → List Value
unfolding message user_content replies
said [] = []
said ((goal, report) ∷ more) =
    message "user" (user_content goal) ∷ (replies report.expressed ++ said more)

-- A history of the last messages.
abbrev kept : ℕ → List Value → RollingConversationHistory
kept n all = record { max_turns = n; history = last_of (n * 2) all }

committing-kept :
    (turns : List (Goal × RunReport)) (n : ℕ) (all : List Value)
    → (committing turns (kept n all)).history ≡ last_of (n * 2) (all ++ said turns)
unfolding committing said commit
committing-kept [] n all = ap (last_of (n * 2)) (sym (append-nil all))
committing-kept ((goal, report) ∷ more) n all =
    let turn = message "user" (user_content goal) ∷ replies report.expressed in
    ap (λ h. (committing more (record { max_turns = n; history = h })).history)
      (trim_to-last (n * 2) (last_of (n * 2) all ++ turn) ∙ last_of-append (n * 2) all turn)
    ∙ committing-kept more n (all ++ turn)
    ∙ ap (last_of (n * 2)) (append_assoc all turn (said more))

-- However many turns have been committed, a history that starts empty holds the last `2 * max_turns`
-- messages of all that the turns said, in their order.
pub history-committing :
    (turns : List (Goal × RunReport)) (n : ℕ)
    → (committing turns (record { max_turns = n; history = [] })).history
      ≡ last_of (n * 2) (said turns)
history-committing turns n =
    ap (λ h. (committing turns (record { max_turns = n; history = h })).history)
      (sym (drop-nil (0 - n * 2)))
    ∙ committing-kept turns n []
