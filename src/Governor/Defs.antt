-- ===== src/Governor/Defs.antt =====
-- pan-core/src/pipeline.rs: the `govern` stage's plugin slot and the governor that allows all.
-- `W` is the world that plugins read and write; a governor may depend on it.
use pan.Prelude.{String, ◌≡◌, ◌≢◌, refl, arith, ◌⊎◌, inl, inr}
use pan.Json.{Value}
use pan.Schema.{Scope}

pub data Verdict : Type 0 where
  allow : Verdict
  deny require_approval : String → Verdict

-- `trait Governor`, its `govern` method
pub record Governor (W : Type 0) : Type 0 where
  pub govern : Scope → String → Value → W → Verdict × W

unfoldable pub allow_all : {W : Type 0} → Governor W
allow_all = record { govern = λ scope capability args w. (allow, w) }

-- A verdict other than `allow` is returned; after `allow`, what follows decides.
abbrev pub if_allowed : {W : Type 0} → Verdict × W → (W → Verdict × W) → Verdict × W
if_allowed (allow, w) next = next w
if_allowed (deny r, w) next = (deny r, w)
if_allowed (require_approval r, w) next = (require_approval r, w)

module _ {W : Type 0} where
  pub if_allowed_inv :
      (v : Verdict × W) (next : W → Verdict × W) {w' : W}
      → if_allowed v next ≡ (allow, w')
      → (v.0 ≡ allow) × (next v.1 ≡ (allow, w'))
  if_allowed_inv (allow, w) next h = (refl, h)
  if_allowed_inv (deny r, w) next h = ground arith
  if_allowed_inv (require_approval r, w) next h = ground arith

  pub if_allowed_next :
      (v : Verdict × W) (next : W → Verdict × W) → v.0 ≡ allow → if_allowed v next ≡ next v.1
  if_allowed_next (allow, w) next h = refl
  if_allowed_next (deny r, w) next h = ground arith
  if_allowed_next (require_approval r, w) next h = ground arith

  pub if_allowed_stop :
      (v : Verdict × W) (next : W → Verdict × W) → v.0 ≢ allow → if_allowed v next ≡ v
  if_allowed_stop (allow, w) next h = absurd (h refl)
  if_allowed_stop (deny r, w) next h = refl
  if_allowed_stop (require_approval r, w) next h = refl

pub Verdict-cases : (v : Verdict) → (v ≡ allow) ⊎ (v ≢ allow)
Verdict-cases allow = inl refl
Verdict-cases (deny r) = inr (λ e. cc)
Verdict-cases (require_approval r) = inr (λ e. cc)
