-- ===== src/Governor/Host.antt =====
-- pan-core/src/pipeline.rs: `HostAllowlistGovernor` and `extract_host`.
pub mod Laws
use pan.Prelude.{
  Bool, true, false, ◌&&◌, ◌||◌, bind, unwrap_or, is_some, String, List, [], Option, none, some,
  any, if◌then◌else◌, str_eq, strip_prefix, ends_with, split_once, ◌⧺◌,
}
use pan.Json
use pan.Json.{Value}
use pan.Schema.{Scope}
use pan.Table.{Table, lookup, insert}
use pan.Governor.Defs.{Verdict, allow, deny, Governor, if_allowed}

pub record HostAllowlistGovernor (W : Type 0) : Type 0 where
  pub inner : Governor W
  pub allow_hosts : Table (List String)

module _ {W : Type 0} where
  unfoldable pub new : Governor W → HostAllowlistGovernor W
  new inner = record { inner = inner; allow_hosts = [] }

  -- `allow_hosts`: a second list for an origin replaces the first.
  unfoldable pub grant_hosts :
      HostAllowlistGovernor W → String → List String → HostAllowlistGovernor W
  grant_hosts g origin hosts = record g { allow_hosts = insert origin hosts g.allow_hosts }

unfoldable pub host_matches : String → String → Bool
host_matches pattern host = elim (strip_prefix "*." pattern) [
  | some suffix ↦ str_eq host suffix || ends_with host ("." ⧺ suffix)
  | none ↦ str_eq host pattern
]

unfoldable pub up_to_slash : String → String
up_to_slash rest = elim (split_once "/" rest) [ some p ↦ p.0 | none ↦ rest ]

unfoldable pub extract_host : String → String
unfolding up_to_slash
extract_host url = elim (strip_prefix "https://" url) [
  | some r ↦ up_to_slash r
  | none ↦ elim (strip_prefix "http://" url) [ some r ↦ up_to_slash r | none ↦ url ]
]

abbrev pub url_arg : Value → String
url_arg args = unwrap_or (bind (Json.get args "url") Json.as_str) ""

abbrev pub is_nonempty : Table (List String) → Bool
is_nonempty [] = false
is_nonempty _ = true

-- The test on `cap.http.` invocations.
unfoldable pub host_allowed : Table (List String) → Scope → String → Bool
host_allowed hosts scope host = elim (lookup scope.origin hosts) [
  | some patterns ↦ any (λ p. host_matches p host) patterns
  | none ↦ false
]

unfoldable pub check_host : Table (List String) → Scope → String → Value → Verdict
check_host hosts scope capability args =
    let host = extract_host (url_arg args) in
    if is_some (strip_prefix "cap.http." capability) && is_nonempty hosts
    then (if host_allowed hosts scope host
        then allow
        else deny ("host `" ⧺ host ⧺ "` is not in the allowlist for origin `" ⧺ scope.origin ⧺ "`"))
    else allow

-- `impl Governor for HostAllowlistGovernor`
unfoldable pub host_governor : {W : Type 0} → HostAllowlistGovernor W → Governor W
host_governor g = record {
  govern = λ scope capability args w.
      if_allowed (g.inner.govern scope capability args w)
        (λ w'. (check_host g.allow_hosts scope capability args, w'));
}
