-- ===== src/Config/Validate.antt =====
-- `Config.ValidateRuntime` and what it calls: `validateProxyHost`, `validPort`, `validateTestURL`
-- and `validateUserName` (internal/manager/types.go and util.go), and `validateRuntimeConfig`
-- (internal/manager/store.go).
use proxyscene.Common.{
  Bool, List, Result, String, [], any_of, bad_host, bad_port, bad_target, bad_url, contains,
  empty_host, empty_url, empty_user, eqb, err, if◌then◌else◌, int_eqb, length, ltb, negsuc, none,
  not, ok, port_conflict, pos, public_host, reject_if, some, too_many_targets, trim_space, ℕ, ℤ,
  ◌&&◌, ◌==◌, ◌>>◌, ◌||◌, ◌∷◌,
}
use proxyscene.Config.{Config}
use proxyscene.Platform.{Platform}
use proxyscene.Systemd.{safe_systemd_target_name, validate_user_name}

-- `validateProxyHost`
unfoldable pub validate_proxy_host : Platform → String → Bool → Result (Unit {0})
validate_proxy_host p host allow_public =
    if trim_space host == "" then err empty_host else elim (p.parse_ip host) [
      | none ↦ err bad_host
      | some loopback ↦ if not loopback && not allow_public then err public_host else ok tt
    ]

-- `validPort`
unfoldable pub valid_port : ℤ → Result (Unit {0})
valid_port (pos n) = if eqb n 0 || ltb 65535 n then err bad_port else ok tt
valid_port (negsuc n) = err bad_port

-- `validateTestURL`
unfoldable pub validate_test_url : Platform → String → Result (Unit {0})
validate_test_url p raw = if trim_space raw == "" then err empty_url else elim (p.parse_url raw) [
  | none ↦ err bad_url
  | some u ↦
      if not (u.scheme == "http") && not (u.scheme == "https") || u.host == ""
      then err bad_url
      else ok tt
]

-- The loop over the map of ports: `seen` holds the ports of the earlier rounds.
unfoldable pub check_ports : List ℤ → List ℤ → Result (Unit {0})
unfolding valid_port
check_ports seen [] = ok tt
check_ports seen (port ∷ rest) = do
  valid_port port
  reject_if (any_of (int_eqb port) seen) port_conflict
  check_ports (port ∷ seen) rest

-- The loop over the targets: `seen` holds the earlier ones.
unfoldable pub check_targets : List String → List String → Result (Unit {0})
check_targets seen [] = ok tt
check_targets seen (svc ∷ rest) = do
  reject_if (svc == "" || contains seen svc) bad_target
  safe_systemd_target_name svc
  check_targets (svc ∷ seen) rest

-- `maxTelegramTargets` (internal/manager/store.go)
abbrev pub max_telegram_targets : ℕ
max_telegram_targets = 512

-- The map of `ValidateRuntime`, in the order of the source.
abbrev pub ports_of : Config → List ℤ
ports_of c =
    c.dev_http_port ∷ c.tg_http_port ∷ c.tg_socks_port ∷ c.global_http_port ∷ c.global_socks_port
    ∷ []

-- `Config.ValidateRuntime`. Go ranges over a map in any order: `order` is the ports in that order.
unfoldable pub validate_runtime : Platform → List ℤ → Config → Result (Unit {0})
unfolding validate_proxy_host check_ports validate_test_url check_targets
validate_runtime p order c = do
  validate_proxy_host p c.proxy_host c.allow_public_bind
  reject_if (c.xray_service_user == "") empty_user
  validate_user_name c.xray_service_user
  check_ports [] order
  validate_test_url p c.test_url
  reject_if (ltb max_telegram_targets (length c.tg_target_services)) too_many_targets
  check_targets [] c.tg_target_services
  validate_user_name c.dev_target_user
