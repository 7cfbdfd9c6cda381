-- ===== src/Schema.antt =====
-- pan-core/src/schema.rs: the vocabulary that the core and its plugins exchange.
-- A `u64` is a native number; the program only compares the revisions modelled here.
-- A double (`f64`) is its bit pattern.
use Prim.Native.String.{len}
use pan.Prelude.{
  ℕ, ◌+◌, ◌/◌, Bool, true, false, ◌&&◌, String, List, [], ◌∷◌, ◌++◌, Option, none, some, ltb,
  str_eq,
}
use pan.Json.{Value}

pub data Trigger : Type 0 where
  utterance : String → String → Trigger
  tick : ℕ → Trigger
  event : String → Value → Trigger
  signal : String → ℕ → Trigger

pub record Goal : Type 0 where
  pub id : String
  pub revision : ℕ
  pub objective : String
  pub trigger : Trigger

-- `self.superseded_by(other)`
unfoldable pub superseded_by : Goal → Goal → Bool
superseded_by g other = str_eq g.id other.id && ltb g.revision other.revision

pub record Scope : Type 0 where
  pub origin : String

pub record Fragment : Type 0 where
  pub channel : String
  pub body : String

pub record Context : Type 0 where
  pub fragments : List Fragment

-- `Context::with`
unfoldable pub with_fragment : Context → String → String → Context
with_fragment c channel body = record c {
  fragments = c.fragments ++ record { channel = channel; body = body } ∷ [];
}

pub record Capability : Type 0 where
  pub id : String
  pub summary : String
  pub args_schema : Value

pub data Outcome : Type 0 where
  achieved abandoned continue : Outcome

pub data ActionIntent : Type 0 where
  invoke : String → Value → Option String → ActionIntent
  express : String → ActionIntent
  conclude : Outcome → ActionIntent

unfoldable pub is_effect : ActionIntent → Bool
is_effect (invoke _ _ _) = true
is_effect (express _) = false
is_effect (conclude _) = false

pub record Decision : Type 0 where
  pub intents : List ActionIntent

-- The last `Conclude` of the list: `rev().find_map`.
unfoldable pub last_outcome : List ActionIntent → Option Outcome
last_outcome [] = none
last_outcome (conclude o ∷ is) = elim (last_outcome is) [ none ↦ some o | some p ↦ some p ]
last_outcome (_ ∷ is) = last_outcome is

-- `Decision::outcome`
unfoldable pub outcome : Decision → Option Outcome
unfolding last_outcome
outcome d = last_outcome d.intents

pub record ContextBudget : Type 0 where
  pub max_tokens : ℕ

-- The bytes of the bodies.
abbrev pub body_bytes : List Fragment → ℕ
body_bytes [] = 0
body_bytes (f ∷ fs) = len f.body + body_bytes fs

-- `ContextBudget::estimate_tokens`
unfoldable pub estimate_tokens : Context → ℕ
estimate_tokens c = body_bytes c.fragments / 4

pub data GoalEval : Type 0 where
  satisfied : GoalEval
  unsatisfied cannot_judge : String → GoalEval
