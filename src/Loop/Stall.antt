-- ===== src/Loop/Stall.antt =====
-- pan-core/src/loop_engine.rs: `StallDetector`. The printed arguments stand for the arguments.
pub mod Laws
use pan.Prelude.{ℕ, ◌+◌, ◌%◌, ◌^◌, Bool, ◌&&◌, String, if◌then◌else◌, leb, str_eq}

-- `MAX_CONSECUTIVE_IDENTICAL_CALLS`
abbrev pub max_identical : ℕ
max_identical = 4

pub record StallDetector : Type 0 where
  pub last_cap : String
  pub last_args : String
  pub count : ℕ

unfoldable pub new : StallDetector
new = record { last_cap = ""; last_args = ""; count = 0 }

-- `args` is `args.to_string()`; the `u32` counter wraps.
unfoldable pub feed : StallDetector → String → String → Bool × StallDetector
feed d capability args =
    let next =
      if str_eq d.last_cap capability && str_eq d.last_args args
      then record d { count = (d.count + 1) % 2 ^ 32 }
      else record { last_cap = capability; last_args = args; count = 1 } in
    (leb max_identical next.count, next)
