-- ===== src/Caps/Http/Laws.antt =====
-- What the host allowlist judges is what `cap.http` connects to.
use Prim.Native.Char.{Char, code}
use mathlib.Core.Option.{some-injective}
use text.Mathlib.TextLemmas.{
  cons-append, nil-append, append_assoc, append_cancel_left, head-eq_of_cons-eq,
}
use package.text.Mathlib.TextEquality.{Char-path}
use pan.Prelude.{
  ℕ, ◌≡◌, refl, sym, ap, subst, ◌∙◌, ◌⊎◌, inl, inr, true, ==_iff, String, List, Option, none, some,
  Result, ok, arith, Option-cases, Bool-cases, str_eq, strip_prefix, strip_prefix-append,
  split_once, ◌⧺◌, and_then-ok, ok-injective, same_char, is_some,
}
use pan.Json.{Value}
use pan.Schema.{Scope}
use pan.Table.{Table}
use pan.Governor.{allow}
use pan.Governor.Host.{extract_host, up_to_slash, url_arg, is_nonempty, host_allowed, check_host}
use pan.Caps.Http.{rsplit_once, parse_u16, ParsedUrl, host_port, authority_path, parse_url}

rsplit_once-append :
    (c : Char) (s h p : String) → rsplit_once c s ≡ some (h, p) → s ≡ h ⧺ String.◌∷◌ c p
unfolding rsplit_once
rsplit_once-append c String.[] h p e = absurd (ground arith)
rsplit_once-append c (String.◌∷◌ d s) h p e = elim (Option-cases (rsplit_once c s)) [
  | inr ((h', p'), f) ↦
      let e' : some (String.◌∷◌ d h', p') ≡ some (h, p) = rw (f, rsplit_once) at e in
      ap (String.◌∷◌ d) (rsplit_once-append c s h' p' f)
      ∙ sym (cons-append d h' (String.◌∷◌ c p'))
      ∙ ap (λ (q : String × String). q.0 ⧺ String.◌∷◌ c q.1) (some-injective _ _ e')
  | inl f ↦ elim (Bool-cases (same_char d c)) [
    | inl g ↦
        let e' : some ("", s) ≡ some (h, p) = rw (f, rsplit_once, g) at e in
        ap (λ x. String.◌∷◌ x s) (Char-path d c ((==_iff (code d) (code c)).0 g))
        ∙ sym (nil-append (String.◌∷◌ c s))
        ∙ ap (λ (q : String × String). q.0 ⧺ String.◌∷◌ c q.1) (some-injective _ _ e')
    | inr g ↦
        let e' : ◌≡◌ {A = Option (String × String)} none (some (h, p)) =
          rw (f, rsplit_once, g) at e in
        absurd (ground arith)
  ]
]

not_https :
    (url r : String) → strip_prefix "http://" url ≡ some r → strip_prefix "https://" url ≡ none
not_https url r h = elim (Option-cases (strip_prefix "https://" url)) [
  | inl e ↦ e
  | inr (q, e) ↦
      let a = strip_prefix-append "http://" url r h in
      let b = strip_prefix-append "https://" url q e in
      let tails : "://" ⧺ r ≡ "s://" ⧺ q =
        append_cancel_left "http" ("://" ⧺ r) ("s://" ⧺ q)
          (sym (append_assoc "http" "://" r) ∙ sym a ∙ b ∙ append_assoc "http" "s://" q) in
      let heads : ◌≡◌ {A = Char} ":" "s" =
        head-eq_of_cons-eq (sym (cons-append ":" "//" r) ∙ tails ∙ cons-append "s" "://" q) in
      let codes : ◌≡◌ {A = ℕ} 58 115 = ap code heads in absurd (omega arith)
]

extract-authority :
    (url r : String) → strip_prefix "http://" url ≡ some r → extract_host url ≡ (authority_path r).0
unfolding extract_host up_to_slash authority_path
extract-authority url r h =
    rw (not_https url r h, extract_host, h)
      (elim (Option-cases (split_once "/" r)) [
        | inl e ↦ rw (e, up_to_slash, authority_path) refl
        | inr (p, e) ↦ rw (e, up_to_slash, authority_path) refl
      ])

-- The authority is the host on the default port, or the host with a colon and the port behind it.
abbrev pub Names : String → ParsedUrl → Type 0
Names authority u =
    ((authority ≡ u.host) × (u.port ≡ 80))
    ⊎ ((p : String) × (authority ≡ u.host ⧺ String.◌∷◌ ":" p) × (parse_u16 p ≡ some u.port))

host_port-Names :
    (authority host path : String) (port : ℕ)
    → host_port authority ≡ ok (host, port)
    → Names authority (record { host = host; port = port; path = path })
unfolding host_port
host_port-Names authority host path port h = elim (Option-cases (rsplit_once ":" authority)) [
  | inl e ↦
      let h' : ◌≡◌ {A = Result String (String × ℕ)} (ok (authority, 80)) (ok (host, port)) =
        rw (e, host_port) at h in
      let same = ok-injective h' in
      inl (ap (λ (q : String × ℕ). q.0) same, sym (ap (λ (q : String × ℕ). q.1) same))
  | inr ((a, p), e) ↦ elim (Option-cases (parse_u16 p)) [
    | inl f ↦ absurd (let h' = rw (e, host_port, f) at h in ground arith)
    | inr (n, f) ↦
        let h' : ◌≡◌ {A = Result String (String × ℕ)} (ok (a, n)) (ok (host, port)) =
          rw (e, host_port, f) at h in
        let same = ok-injective h' in
        inr (
          p,
          rsplit_once-append ":" authority a p e
              ∙ ap (λ (q : String × ℕ). q.0 ⧺ String.◌∷◌ ":" p) same,
          f ∙ ap (λ (q : String × ℕ). some q.1) same,
        )
  ]
]

-- Where an url is parsed, what the governor takes for its host is the host and the port that are
-- connected to.
parse_url-Names : (url : String) (u : ParsedUrl) → parse_url url ≡ ok u → Names (extract_host url) u
unfolding parse_url
parse_url-Names url u h = elim (Option-cases (strip_prefix "http://" url)) [
  | inl e ↦ absurd (ground arith)
  | inr (r, e) ↦
      let (authority, path) = authority_path r in
      let (hp, f, g) = and_then-ok (host_port authority) _ (rw (e, parse_url) at h) in
      elim (Bool-cases (str_eq hp.0 "")) [
        | inl s ↦ absurd (ground arith)
        | inr s ↦
            let v : ParsedUrl = record { host = hp.0; port = hp.1; path = path } in
            let g' : ok v ≡ ok u = rw s at g in
            subst (λ x. Names (extract_host url) x) (ok-injective g')
              (subst (λ a. Names a v) (sym (extract-authority url r e))
                (host_port-Names authority hp.0 path hp.1 f))
      ]
]

-- A request that a host allowlist lets through, where there is a list, is for an url whose host and
-- port, as `cap.http` reads them, are listed: the host alone on the default port, or the host with its
-- port as the url spells it.
pub allowed-connects_listed :
    (hosts : Table (List String)) (scope : Scope) (args : Value) (capability : String)
    (u : ParsedUrl)
    → is_nonempty hosts ≡ true
    → is_some (strip_prefix "cap.http." capability) ≡ true
    → check_host hosts scope capability args ≡ allow
    → parse_url (url_arg args) ≡ ok u
    → (authority : String) × Names authority u × (host_allowed hosts scope authority ≡ true)
unfolding check_host
allowed-connects_listed hosts scope args capability u n c h p =
    (extract_host (url_arg args), parse_url-Names (url_arg args) u p, ground arith)
