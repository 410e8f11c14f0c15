-- ===== src/Config/Validate.antt =====
-- What the validation of pkg/config/config.go accepts.
use gopm.Base.{
  ℕ, ◌+◌, ◌≡◌, refl, sym, ap, ◌∙◌, ◌≢◌, ◌↔◌, inl, inr, false, Option, none, some, List, [], ◌∷◌,
  map, arith, if◌then◌else◌, Option-cases, any, is_empty, Str, str_eq, is_blank, str_eq_iff,
}
use gopm.Config.{
  AppConfig, GopmConfig, ConfigError, no_apps, validate_from, validate, load, loaded, checked,
}

-- No string of the list is `s`.
abbrev pub Avoids : Str → List Str → Type 0
Avoids s [] = Unit
Avoids s (t ∷ ts) = (s ≢ t) × Avoids s ts

abbrev pub Distinct : List Str → Type 0
Distinct [] = Unit
Distinct (s ∷ ss) = Avoids s ss × Distinct ss

-- Every app has a name and a command.
abbrev pub Complete : List AppConfig → Type 0
Complete [] = Unit
Complete (a ∷ apps) = (is_blank a.name ≡ false) × (is_blank a.command ≡ false) × Complete apps

abbrev pub names : List AppConfig → List Str
names = map (λ (a : AppConfig). a.name)

-- No name of the one list is in the other.
abbrev Apart : List Str → List Str → Type 0
Apart [] seen = Unit
Apart (s ∷ ss) seen = Avoids s seen × Apart ss seen

any-eq-false : (s : Str) (seen : List Str) → any (str_eq s) seen ≡ false → Avoids s seen
any-eq-false s [] h = tt
any-eq-false s (t ∷ ts) h = (ground (arith, str_eq_iff s t), any-eq-false s ts (ground arith))

any-of-Avoids : (s : Str) (seen : List Str) → Avoids s seen → any (str_eq s) seen ≡ false
any-of-Avoids s [] h = refl
any-of-Avoids s (t ∷ ts) h = ground (arith, str_eq_iff s t, any-of-Avoids s ts)

Apart-cons :
    (ss : List Str) (s : Str) (seen : List Str) → Apart ss (s ∷ seen) → Avoids s ss × Apart ss seen
Apart-cons [] s seen h = (tt, tt)
Apart-cons (t ∷ ts) s seen h =
    let r = Apart-cons ts s seen h.1 in ((λ e. h.0.0 (sym e), r.0), (h.0.1, r.1))

cons-Apart :
    (ss : List Str) (s : Str) (seen : List Str) → Avoids s ss → Apart ss seen → Apart ss (s ∷ seen)
cons-Apart [] s seen h k = tt
cons-Apart (t ∷ ts) s seen h k = ((λ e. h.0 (sym e), k.0), cons-Apart ts s seen h.1 k.1)

Apart-nil : (ss : List Str) → Apart ss []
Apart-nil [] = tt
Apart-nil (s ∷ ss) = (tt, Apart-nil ss)

validate_from_sound :
    (seen : List Str) (i : ℕ) (apps : List AppConfig)
    → validate_from seen i apps ≡ none
    → Complete apps × Distinct (names apps) × Apart (names apps) seen
unfolding validate_from
validate_from_sound seen i [] h = (tt, tt, tt)
validate_from_sound seen i (a ∷ apps) h =
    let r = validate_from_sound (a.name ∷ seen) (i + 1) apps (ground arith) in
    let s = Apart-cons (names apps) a.name seen r.2 in
    ((ground arith, ground arith, r.0), (s.0, r.1), (any-eq-false a.name seen (ground arith), s.1))

validate_from-Complete :
    (seen : List Str) (i : ℕ) (apps : List AppConfig)
    → Complete apps
    → Distinct (names apps)
    → Apart (names apps) seen
    → validate_from seen i apps ≡ none
unfolding validate_from
validate_from-Complete seen i [] c d s = refl
validate_from-Complete seen i (a ∷ apps) c d s =
    let rest =
      validate_from-Complete (a.name ∷ seen) (i + 1) apps c.2 d.1
        (cons-Apart (names apps) a.name seen d.0 s.1) in
    ground (arith, rest, any-of-Avoids a.name seen s.0)

accepts :
    (apps : List AppConfig)
    → ((if is_empty apps then some no_apps else validate_from [] 0 apps) ≡ none)
      ↔ ((apps ≢ []) × Complete apps × Distinct (names apps))
accepts [] = (λ h. cc, λ h. absurd (h.0 refl))
accepts (a ∷ apps) = (
  λ h. let r = validate_from_sound [] 0 (a ∷ apps) h in (λ (e : a ∷ apps ≡ []). cc, r.0, r.1),
  λ h. validate_from-Complete [] 0 (a ∷ apps) h.1 h.2 (Apart-nil (names (a ∷ apps))),
)

-- `validate` accepts exactly the configurations with at least one app, in which every app has a
-- name and a command and no two apps have the same name.
pub validate-eq-none_iff :
    (c : GopmConfig)
    → (validate c ≡ none) ↔ ((c.apps ≢ []) × Complete c.apps × Distinct (names c.apps))
unfolding validate
validate-eq-none_iff c = accepts c.apps

checked-eq-loaded :
    (d c : GopmConfig) (o : Option ConfigError) → checked d o ≡ loaded c → (d ≡ c) × (o ≡ none)
checked-eq-loaded d c none h = (cc, refl)
checked-eq-loaded d c (some e) h = cc

-- What `load` returns was read, was parsed to this configuration, and has distinct names.
pub load-Distinct :
    (unmarshal : Str → Option GopmConfig) (body : Option Str) (c : GopmConfig)
    → load unmarshal body ≡ loaded c
    → (b : Str) × (body ≡ some b) × (unmarshal b ≡ some c) × Distinct (names c.apps)
unfolding load
load-Distinct unmarshal none c h = cc
load-Distinct unmarshal (some b) c h = elim (Option-cases (unmarshal b)) [
  | inl e ↦ cc
  | inr (d, e) ↦
      let r = checked-eq-loaded d c (validate d) (rw e at h) in
      let v : validate c ≡ none = rw (← r.0) r.1 in
      (b, refl, e ∙ ap some r.0, ((validate-eq-none_iff c).0 v).2)
]
