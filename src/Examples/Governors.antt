-- ===== src/Examples/Governors.antt =====
-- The governors.
use pan.Prelude.{ℕ, ◌≡◌, refl, false, [], ◌∷◌, strip_prefix}
use pan.Json.{Value, text, object, field, end}
use pan.Governor.Scoped.{prefix_matches}
use pan.Governor.Glob.{glob_match_simple}
use pan.Governor.Path.{PathRule, PathGovernor, path_governor, denial}
use pan.Governor.Path.Laws.{here, govern-First_denies}
use pan.Governor.Host.{HostAllowlistGovernor}
use pan.Examples.Data.{ci, counting}

abbrev etc_rule : PathRule
etc_rule = record { capability_prefix = "cap.fs"; path_glob = "/etc/**"; allowed = false }

abbrev etc_governor : PathGovernor ℕ
etc_governor = record { inner = counting; rules = etc_rule ∷ [] }

abbrev etc_args : Value
etc_args = object (field "path" (text "/etc/passwd") end)

govern-First_denies_example :
    (path_governor etc_governor).govern ci "cap.fs.read" etc_args 0
    ≡ (denial "cap.fs.read" "/etc/passwd" etc_rule, 0)
unfolding prefix_matches strip_prefix glob_match_simple
govern-First_denies_example =
    govern-First_denies etc_governor ci "cap.fs.read" etc_args 0 "/etc/passwd" etc_rule refl
      (here refl) refl

abbrev hosts : HostAllowlistGovernor ℕ
hosts = record { inner = counting; allow_hosts = ("ci", "*.example.com" ∷ []) ∷ [] }

abbrev url_args : Value
url_args = object (field "url" (text "https://api.example.com/v1") end)
