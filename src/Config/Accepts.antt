-- ===== src/Config/Accepts.antt =====
-- `ValidateRuntime` as a predicate on configurations (internal/manager/types.go).
use mathlib.Core.List.{Permᴰ}
use proxyscene.Common.{
  >>-eq-ok, >>=-eq-ok, All, Bool, IsNodup, List, Option-cases, String, [], accepted, arith,
  bad_target, cons-ne-nil, contains, empty_user, eq_iff, false, ge→ltb, inl, inr, length, ltb,
  ltb→ge, ok, push_unseen, refl, reject_if, some, too_many_targets, trim_space, true, unseen_none,
  unseen_push, ℤ, ◌==◌, ◌||◌, ◌↔◌, ◌∷◌, ◌≡◌, ◌≢◌, ◌≤◌, ◌⊎◌,
}
use proxyscene.Config.{Config}
use proxyscene.Config.Ports.{IsDistinct, IsPort, check_ports_iff}
use proxyscene.Config.Validate.{
  check_ports, check_targets, max_telegram_targets, ports_of, validate_proxy_host, validate_runtime,
  validate_test_url,
}
use proxyscene.Platform.{Platform, Url}
use proxyscene.Systemd.{matches_user, safe_systemd_target_name, validate_user_name}

-- A service target that `ValidateRuntime` accepts by itself.
abbrev pub IsTarget : String → Type 0
IsTarget t = (t ≢ "") × (safe_systemd_target_name t ≡ ok tt)

-- What a runnable configuration promises.
pub record IsRunnable (p : Platform) (c : Config) : Type 0 where
  pub host_text : trim_space c.proxy_host ≢ ""
  pub host :
      (loopback : Bool) × (p.parse_ip c.proxy_host ≡ some loopback)
      × ((loopback ≡ true) ⊎ (c.allow_public_bind ≡ true))
  pub user : matches_user c.xray_service_user ≡ true
  pub ports : All IsPort (ports_of c)
  pub distinct : IsDistinct (ports_of c)
  pub url_text : trim_space c.test_url ≢ ""
  pub url :
      (u : Url) × (p.parse_url c.test_url ≡ some u)
      × ((u.scheme ≡ "http") ⊎ (u.scheme ≡ "https"))
      × (u.host ≢ "")
  pub few : length c.tg_target_services ≤ max_telegram_targets
  pub targets : All IsTarget c.tg_target_services
  pub unique : IsNodup c.tg_target_services
  pub dev_user : (c.dev_target_user ≡ "") ⊎ (matches_user c.dev_target_user ≡ true)

module _ (p : Platform) (c : Config) where
  host_checked :
      validate_proxy_host p c.proxy_host c.allow_public_bind ≡ ok tt
      → (trim_space c.proxy_host ≢ "")
        × ((loopback : Bool) × (p.parse_ip c.proxy_host ≡ some loopback)
            × ((loopback ≡ true) ⊎ (c.allow_public_bind ≡ true)))
  unfolding validate_proxy_host
  host_checked h = (
    λ t. ground (arith, eq_iff (trim_space c.proxy_host) ""),
    elim (Option-cases (p.parse_ip c.proxy_host)) [
      | inl e ↦ absurd (ground (arith, eq_iff (trim_space c.proxy_host) ""))
      | inr (l, e) ↦ (l, e, ground (arith, eq_iff (trim_space c.proxy_host) ""))
    ],
  )

  host_passes :
      trim_space c.proxy_host ≢ ""
      → (loopback : Bool) → p.parse_ip c.proxy_host ≡ some loopback
      → (loopback ≡ true) ⊎ (c.allow_public_bind ≡ true)
      → validate_proxy_host p c.proxy_host c.allow_public_bind ≡ ok tt
  unfolding validate_proxy_host
  host_passes t loopback e h = ground (arith, eq_iff (trim_space c.proxy_host) "")

  url_checked :
      validate_test_url p c.test_url ≡ ok tt
      → (trim_space c.test_url ≢ "")
        × ((u : Url) × (p.parse_url c.test_url ≡ some u)
            × ((u.scheme ≡ "http") ⊎ (u.scheme ≡ "https"))
            × (u.host ≢ ""))
  unfolding validate_test_url
  url_checked h = (
    λ t. ground (arith, eq_iff (trim_space c.test_url) ""),
    elim (Option-cases (p.parse_url c.test_url)) [
      | inl e ↦ absurd (ground (arith, eq_iff (trim_space c.test_url) ""))
      | inr (u, e) ↦ (
        u,
        e,
        ground (
          arith,
          eq_iff (trim_space c.test_url) "",
          eq_iff u.scheme "http",
          eq_iff u.scheme "https",
          eq_iff u.host "",
        ),
        λ z. ground (arith, eq_iff (trim_space c.test_url) "", eq_iff u.host ""),
      )
    ],
  )

  url_passes :
      trim_space c.test_url ≢ ""
      → (u : Url) → p.parse_url c.test_url ≡ some u
      → (u.scheme ≡ "http") ⊎ (u.scheme ≡ "https")
      → u.host ≢ ""
      → validate_test_url p c.test_url ≡ ok tt
  unfolding validate_test_url
  url_passes t u e s h = ground (
    arith,
    eq_iff (trim_space c.test_url) "",
    eq_iff u.scheme "http",
    eq_iff u.scheme "https",
    eq_iff u.host "",
  )

user_checked : (s : String) → validate_user_name s ≡ ok tt → (s ≡ "") ⊎ (matches_user s ≡ true)
unfolding validate_user_name
user_checked s h = ground (arith, eq_iff s "")

user_passes : (s : String) → (s ≡ "") ⊎ (matches_user s ≡ true) → validate_user_name s ≡ ok tt
unfolding validate_user_name
user_passes s h = ground (arith, eq_iff s "")

not_empty : (s : String) → s ≢ "" → (s == "") ≡ false
not_empty s h = ground (arith, eq_iff s "")

named_user :
    (s : String) → (s ≡ "") ⊎ (matches_user s ≡ true) → (s == "") ≡ false → matches_user s ≡ true
named_user s h e = ground (arith, eq_iff s "")

matches_user-ne-empty : (s : String) → matches_user s ≡ true → s ≢ ""
unfolding matches_user
matches_user-ne-empty String.[] h e = cc
matches_user-ne-empty (String.◌∷◌ c s) h e = cons-ne-nil c s e

-- The targets of `seen` and those still to come, apart from one another.
record AreTargets (seen rest : List String) : Type 0 where
  targets : All IsTarget rest
  unique : IsNodup rest
  unseen : All (λ t. contains seen t ≡ false) rest

target_parts :
    (seen : List String) (t : String)
    → (t == "" || contains seen t) ≡ false
    → (t ≢ "") × (contains seen t ≡ false)
target_parts seen t h = (λ e. ground (arith, eq_iff t ""), ground arith)

targets_checked : (seen rest : List String) → check_targets seen rest ≡ ok tt → AreTargets seen rest
unfolding check_targets
targets_checked seen [] h = record { targets = tt; unique = tt; unseen = tt }
targets_checked seen (t ∷ rest) h =
    let (u, fresh, h1) = >>=-eq-ok (reject_if (t == "" || contains seen t) bad_target) _ h in
    let (w, safe, h2) = >>=-eq-ok (safe_systemd_target_name t) _ h1 in
    let r = targets_checked (t ∷ seen) rest h2 in
    let (apart, unseen) = unseen_push t seen rest r.unseen in
    let (nonempty, new) = target_parts seen t (accepted _ _ fresh) in
    record {
      targets = ((nonempty, safe), r.targets);
      unique = (apart, r.unique);
      unseen = (new, unseen);
    }

targets_pass : (seen rest : List String) → AreTargets seen rest → check_targets seen rest ≡ ok tt
unfolding check_targets
targets_pass seen [] h = refl
targets_pass seen (t ∷ rest) h =
    let test : (t == "" || contains seen t) ≡ false =
      ground (arith, eq_iff t "", h.targets.0.0, h.unseen.0) in
    rw test (
      rw h.targets.0.1 (
        targets_pass (t ∷ seen) rest (record {
          targets = h.targets.1;
          unique = h.unique.1;
          unseen = push_unseen t seen rest h.unique.0 h.unseen.1;
        })))

module _ (p : Platform) (c : Config) {order : List ℤ} (r : Permᴰ order (ports_of c)) where
  runtime_checked : validate_runtime p order c ≡ ok tt → IsRunnable p c
  unfolding validate_runtime
  runtime_checked h =
      let (host, h) = >>-eq-ok (validate_proxy_host p c.proxy_host c.allow_public_bind) _ h in
      let (named, h) = >>-eq-ok (reject_if (c.xray_service_user == "") empty_user) _ h in
      let (user, h) = >>-eq-ok (validate_user_name c.xray_service_user) _ h in
      let (ports, h) = >>-eq-ok (check_ports [] order) _ h in
      let (url, h) = >>-eq-ok (validate_test_url p c.test_url) _ h in
      let few_test = ltb max_telegram_targets (length c.tg_target_services) in
      let (few, h) = >>-eq-ok (reject_if few_test too_many_targets) _ h in
      let (targets, dev) = >>-eq-ok (check_targets [] c.tg_target_services) _ h in
      let (host_text, host_value) = host_checked p c host in
      let (url_text, url_value) = url_checked p c url in
      let (port_range, port_apart) = (check_ports_iff r).0 ports in
      let services = targets_checked [] c.tg_target_services targets in
      record {
        host_text = host_text;
        host = host_value;
        user = named_user c.xray_service_user (user_checked _ user) (accepted _ _ named);
        ports = port_range;
        distinct = port_apart;
        url_text = url_text;
        url = url_value;
        few = ltb→ge _ _ (accepted few_test too_many_targets few);
        targets = services.targets;
        unique = services.unique;
        dev_user = user_checked _ dev;
      }

  runtime_passes : IsRunnable p c → validate_runtime p order c ≡ ok tt
  unfolding validate_runtime
  runtime_passes h = rw (host_passes p c h.host_text h.host.0 h.host.1 h.host.2) (
      rw (not_empty _ (matches_user-ne-empty _ h.user)) (
        rw (user_passes c.xray_service_user (inr h.user)) (
          rw ((check_ports_iff r).1 (h.ports, h.distinct)) (
            rw (url_passes p c h.url_text h.url.0 h.url.1 h.url.2 h.url.3) (
              rw (ge→ltb _ _ h.few) (
                rw
                  (targets_pass [] c.tg_target_services (record {
                    targets = h.targets;
                    unique = h.unique;
                    unseen = unseen_none c.tg_target_services;
                  }))
                  (user_passes c.dev_target_user h.dev_user)))))))

  -- `ValidateRuntime` accepts a configuration exactly if the listening address is an IP literal, a
  -- loopback one unless public binding is allowed, the service user is a safe name, the five ports
  -- lie in 1 to 65535 and differ, the test address is an http or https URL with a host, there are
  -- at most 512 targets, each of them well formed and none twice, and the user of the development
  -- proxy is empty or a safe name. This holds in whatever order Go ranges over the map of ports.
  pub validate_runtime_iff : (validate_runtime p order c ≡ ok tt) ↔ IsRunnable p c
  validate_runtime_iff = (runtime_checked, runtime_passes)
