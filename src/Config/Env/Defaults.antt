-- ===== src/Config/Env/Defaults.antt =====
-- What `DefaultConfig` gives, whatever the environment holds (internal/manager/types.go).
use proxyscene.Common.{
  All, Bool, List, Option, Option-cases, Result, String, [], any_of, ap, arith, atoi, eqb, err,
  false, fields_by, if◌then◌else◌, inl, inr, is_space, ltb, negsuc, none, not, ok, pos, refl, some,
  subst, sym, trim_space, true, ℤ, ◌&&◌, ◌==◌, ◌||◌, ◌∙◌, ◌∷◌, ◌≡◌,
}
use proxyscene.Config.{Config}
use proxyscene.Config.Env.{
  Environment, accept_port, check_dev_user, check_host, check_service_user, check_target_services,
  default_config, default_tg_targets, failed, is_literal, is_set, overridden_config,
  runtime_optional_string_env, runtime_port_env, runtime_string_env, split_fields,
  variable_or_empty,
}
use proxyscene.Config.Ports.{IsPort}
use proxyscene.Config.Validate.{ports_of}
use proxyscene.Platform.{Platform}
use proxyscene.Systemd.{safe_systemd_target_name, validate_user_name}

-- A field that both sides agree on.
if_same :
    {A : Type 0} (field : Config → A) (b : Bool) (c d : Config)
    → field c ≡ field d
    → field (if b then c else d) ≡ field d
if_same field true c d e = e
if_same field false c d e = refl

-- A check that falls back to a good value when the override is bad, where no override is a good
-- value too.
checked :
    {A : Type 0} (Good : A → Type 0) (mask bad : Bool) (fallback value : A)
    → Good fallback
    → (mask ≡ false → value ≡ fallback)
    → (bad ≡ false → Good value)
    → Good (if mask && bad then fallback else value)
checked Good true true fallback value good same fine = good
checked Good true false fallback value good same fine = fine refl
checked Good false bad fallback value good same fine = subst Good (sym (same refl)) good

if_field :
    {A : Type 0} (field : Config → A) (b : Bool) (c d : Config)
    → field (if b then c else d) ≡ (if b then field c else field d)
if_field field true c d = refl
if_field field false c d = refl

not_failed : (r : Result (Unit {0})) → failed r ≡ false → r ≡ ok tt
unfolding failed
not_failed (ok u) h = refl
not_failed (err e) h = cc

string_fallback :
    (env : Environment) (key fallback : String)
    → (runtime_string_env env key fallback).1 ≡ false
    → (runtime_string_env env key fallback).0 ≡ fallback
unfolding runtime_string_env
string_fallback env key fallback h = ground arith

optional_fallback :
    (env : Environment) (key fallback : String)
    → (runtime_optional_string_env env key fallback).1 ≡ false
    → (runtime_optional_string_env env key fallback).0 ≡ fallback
unfolding runtime_optional_string_env
optional_fallback env key fallback h = elim (Option-cases (env key)) [
  | inl e ↦ rw (e, runtime_optional_string_env) refl
  | inr (raw, e) ↦ cc (rw (e, runtime_optional_string_env) at h)
]

one_of_two :
    (b : Bool) (x y : ℤ × Bool)
    → IsPort x.0
    → (b ≡ false → IsPort y.0)
    → IsPort (if b then x else y).0
one_of_two true x y f g = f
one_of_two false x y f g = g refl

accept_port-IsPort :
    (fallback : ℤ) (read : Option ℤ) → IsPort fallback → IsPort (accept_port fallback read).0
unfolding accept_port
accept_port-IsPort fallback none fine = fine
accept_port-IsPort fallback (some (negsuc n)) fine = fine
accept_port-IsPort fallback (some (pos n)) fine =
    one_of_two (eqb n 0 || ltb 65535 n) (fallback, false) (pos n, true) fine
      (λ e. (ground arith, ground arith))

runtime_port_env-IsPort :
    (env : Environment) (key : String) (fallback : ℤ)
    → IsPort fallback
    → IsPort (runtime_port_env env key fallback).0
unfolding runtime_port_env
runtime_port_env-IsPort env key fallback fine =
    let value = trim_space (variable_or_empty (env key)) in
    one_of_two (not (is_set (env key)) || value == "") (fallback, false)
      (accept_port fallback (atoi value)) fine (λ e. accept_port-IsPort fallback (atoi value) fine)

-- The four checks, each on the field that it may replace.
check_host_field :
    (p : Platform) (c : Config)
    → p.parse_ip "127.0.0.1" ≡ some true
    → (c.runtime_overrides.proxy_host ≡ false → c.proxy_host ≡ "127.0.0.1")
    → is_literal (p.parse_ip (check_host p c).proxy_host) ≡ true
unfolding check_host
check_host_field p c local same =
    rw
      (if_field (λ c. c.proxy_host)
        (c.runtime_overrides.proxy_host && not (is_literal (p.parse_ip c.proxy_host)))
        (record c {
          proxy_host = "127.0.0.1";
          runtime_overrides = record c.runtime_overrides { proxy_host = false };
        })
        c)
      (checked (λ h. is_literal (p.parse_ip h) ≡ true) c.runtime_overrides.proxy_host _ "127.0.0.1"
        c.proxy_host (rw local refl) same (λ e. ground arith))

check_service_user_field :
    (c : Config)
    → (c.runtime_overrides.xray_service_user ≡ false → c.xray_service_user ≡ "proxyscene")
    → validate_user_name (check_service_user c).xray_service_user ≡ ok tt
unfolding check_service_user validate_user_name
check_service_user_field c same =
    rw
      (if_field (λ c. c.xray_service_user)
        (c.runtime_overrides.xray_service_user && failed (validate_user_name c.xray_service_user))
        (record c {
          xray_service_user = "proxyscene";
          runtime_overrides = record c.runtime_overrides { xray_service_user = false };
        })
        c)
      (checked (λ u. validate_user_name u ≡ ok tt) c.runtime_overrides.xray_service_user _
        "proxyscene" c.xray_service_user refl same
        (not_failed (validate_user_name c.xray_service_user)))

check_dev_user_field :
    (c : Config)
    → (c.runtime_overrides.dev_target_user ≡ false → c.dev_target_user ≡ "")
    → validate_user_name (check_dev_user c).dev_target_user ≡ ok tt
unfolding check_dev_user validate_user_name
check_dev_user_field c same =
    rw
      (if_field (λ c. c.dev_target_user)
        (c.runtime_overrides.dev_target_user && failed (validate_user_name c.dev_target_user))
        (record c {
          dev_target_user = "";
          runtime_overrides = record c.runtime_overrides { dev_target_user = false };
        })
        c)
      (checked (λ u. validate_user_name u ≡ ok tt) c.runtime_overrides.dev_target_user _ ""
        c.dev_target_user refl same (not_failed (validate_user_name c.dev_target_user)))

defaults_safe :
    any_of (λ t. failed (safe_systemd_target_name t)) (split_fields default_tg_targets) ≡ false
unfolding split_fields fields_by is_space safe_systemd_target_name failed
defaults_safe = refl

check_target_services_field :
    (c : Config)
    → (c.runtime_overrides.tg_target_services ≡ false
        → c.tg_target_services ≡ split_fields default_tg_targets)
    → any_of (λ t. failed (safe_systemd_target_name t)) (check_target_services c).tg_target_services
      ≡ false
unfolding check_target_services
check_target_services_field c same =
    rw
      (if_field (λ c. c.tg_target_services)
        (c.runtime_overrides.tg_target_services
          && any_of (λ t. failed (safe_systemd_target_name t)) c.tg_target_services)
        (record c {
          tg_target_services = split_fields default_tg_targets;
          runtime_overrides = record c.runtime_overrides { tg_target_services = false };
        })
        c)
      (checked (λ ts. any_of (λ t. failed (safe_systemd_target_name t)) ts ≡ false)
        c.runtime_overrides.tg_target_services _ (split_fields default_tg_targets)
        c.tg_target_services defaults_safe same (λ e. e))

targets_pass :
    (ts : List String)
    → any_of (λ t. failed (safe_systemd_target_name t)) ts ≡ false
    → All (λ t. safe_systemd_target_name t ≡ ok tt) ts
targets_pass [] h = tt
targets_pass (t ∷ ts) h =
    let (a, b) = both (failed (safe_systemd_target_name t)) _ h in
    (not_failed (safe_systemd_target_name t) a, targets_pass ts b)
  where
    both : (a b : Bool) → (a || b) ≡ false → (a ≡ false) × (b ≡ false)
    both a b h = ground arith

module _ (p : Platform) (env : Environment) where
  -- The fields that a check leaves alone.
  host_left :
      {A : Type 0} (field : Config → A) (c : Config)
      → field (record c {
        proxy_host = "127.0.0.1";
        runtime_overrides = record c.runtime_overrides { proxy_host = false };
      })
        ≡ field c
      → field (check_host p c) ≡ field c
  unfolding check_host
  host_left field c e = if_same field _ _ c e

  user_left :
      {A : Type 0} (field : Config → A) (c : Config)
      → field (record c {
        xray_service_user = "proxyscene";
        runtime_overrides = record c.runtime_overrides { xray_service_user = false };
      })
        ≡ field c
      → field (check_service_user c) ≡ field c
  unfolding check_service_user
  user_left field c e = if_same field _ _ c e

  dev_left :
      {A : Type 0} (field : Config → A) (c : Config)
      → field (record c {
        dev_target_user = "";
        runtime_overrides = record c.runtime_overrides { dev_target_user = false };
      })
        ≡ field c
      → field (check_dev_user c) ≡ field c
  unfolding check_dev_user
  dev_left field c e = if_same field _ _ c e

  targets_left :
      {A : Type 0} (field : Config → A) (c : Config)
      → field (record c {
        tg_target_services = split_fields default_tg_targets;
        runtime_overrides = record c.runtime_overrides { tg_target_services = false };
      })
        ≡ field c
      → field (check_target_services c) ≡ field c
  unfolding check_target_services
  targets_left field c e = if_same field _ _ c e

  first : Config
  first = overridden_config env

  first_host : first.runtime_overrides.proxy_host ≡ false → first.proxy_host ≡ "127.0.0.1"
  unfolding first overridden_config
  first_host = string_fallback env "PROXYSCENE_HOST" "127.0.0.1"

  first_user :
      first.runtime_overrides.xray_service_user ≡ false → first.xray_service_user ≡ "proxyscene"
  unfolding first overridden_config
  first_user = string_fallback env "PROXYSCENE_SERVICE_USER" "proxyscene"

  first_dev : first.runtime_overrides.dev_target_user ≡ false → first.dev_target_user ≡ ""
  unfolding first overridden_config
  first_dev = optional_fallback env "PROXYSCENE_DEV_TARGET_USER" ""

  first_targets :
      first.runtime_overrides.tg_target_services ≡ false
      → first.tg_target_services ≡ split_fields default_tg_targets
  unfolding first overridden_config
  first_targets e =
      ap split_fields (optional_fallback env "PROXYSCENE_TG_SERVICES" default_tg_targets e)

  first_ports : All IsPort (ports_of first)
  unfolding first overridden_config
  first_ports = (
    runtime_port_env-IsPort env _ (pos 7891) (omega arith, omega arith),
    (
      runtime_port_env-IsPort env _ (pos 7892) (omega arith, omega arith),
      (
        runtime_port_env-IsPort env _ (pos 7893) (omega arith, omega arith),
        (
          runtime_port_env-IsPort env _ (pos 7890) (omega arith, omega arith),
          (runtime_port_env-IsPort env _ (pos 7894) (omega arith, omega arith), tt),
        ),
      ),
    ),
  )

  c1 : Config
  c1 = check_host p first

  c2 : Config
  c2 = check_service_user c1

  c3 : Config
  c3 = check_dev_user c2

  -- `DefaultConfig` gives, whatever the environment holds, a listening address that is an IP literal,
  -- user names and targets that are safe, and five ports in 1 to 65535, if 127.0.0.1 parses.
  pub default_config_safe :
      p.parse_ip "127.0.0.1" ≡ some true
      → (is_literal (p.parse_ip (default_config p env).proxy_host) ≡ true)
        × (validate_user_name (default_config p env).xray_service_user ≡ ok tt)
        × (validate_user_name (default_config p env).dev_target_user ≡ ok tt)
        × All (λ t. safe_systemd_target_name t ≡ ok tt) (default_config p env).tg_target_services
        × All IsPort (ports_of (default_config p env))
  unfolding default_config first c1 c2 c3
  default_config_safe local = (
    subst (λ h. is_literal (p.parse_ip h) ≡ true)
        (sym (
          targets_left (λ c. c.proxy_host) c3 refl
          ∙ dev_left (λ c. c.proxy_host) c2 refl
          ∙ user_left (λ c. c.proxy_host) c1 refl))
        (check_host_field p first local first_host),
    subst (λ u. validate_user_name u ≡ ok tt)
        (sym (
          targets_left (λ c. c.xray_service_user) c3 refl
          ∙ dev_left (λ c. c.xray_service_user) c2 refl))
        (check_service_user_field c1 (λ e.
          host_left (λ c. c.xray_service_user) first refl
          ∙ first_user
              (sym (host_left (λ c. c.runtime_overrides.xray_service_user) first refl) ∙ e))),
    subst (λ u. validate_user_name u ≡ ok tt) (sym (targets_left (λ c. c.dev_target_user) c3 refl))
        (check_dev_user_field c2 (λ e.
          user_left (λ c. c.dev_target_user) c1 refl
          ∙ host_left (λ c. c.dev_target_user) first refl
          ∙ first_dev (
              sym (
                user_left (λ c. c.runtime_overrides.dev_target_user) c1 refl
                ∙ host_left (λ c. c.runtime_overrides.dev_target_user) first refl)
              ∙ e))),
    targets_pass _ (
        check_target_services_field c3 (λ e.
          dev_left (λ c. c.tg_target_services) c2 refl
          ∙ user_left (λ c. c.tg_target_services) c1 refl
          ∙ host_left (λ c. c.tg_target_services) first refl
          ∙ first_targets (
              sym (
                dev_left (λ c. c.runtime_overrides.tg_target_services) c2 refl
                ∙ user_left (λ c. c.runtime_overrides.tg_target_services) c1 refl
                ∙ host_left (λ c. c.runtime_overrides.tg_target_services) first refl)
              ∙ e))),
    subst (All IsPort)
        (sym (
          targets_left ports_of c3 refl
          ∙ dev_left ports_of c2 refl
          ∙ user_left ports_of c1 refl
          ∙ host_left ports_of first refl))
        first_ports,
  )
