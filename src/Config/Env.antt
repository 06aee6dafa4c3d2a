-- ===== src/Config/Env.antt =====
-- The configuration that the environment gives: `DefaultConfig` and the readers of one variable
-- (internal/manager/types.go; `envString` and `splitFields` of util.go). The environment is a
-- function, `none` for a variable that is not set; the warnings that are printed are not modelled.
pub mod Defaults
use proxyscene.Common.{
  Bool, List, Option, Result, String, any_of, atoi, code, eqb, err, false, fields_by, if◌then◌else◌,
  is_space, lowers_to, ltb, negsuc, none, not, ok, pos, some, trim_space, true, ℤ, ◌&&◌, ◌==◌, ◌||◌,
}
use proxyscene.Config.{Config}
use proxyscene.Platform.{Platform}
use proxyscene.Systemd.{safe_systemd_target_name, validate_user_name}

-- `os.LookupEnv`; `os.Getenv` reads a missing variable as the empty text.
abbrev pub Environment : Type 0
Environment = String → Option String

abbrev pub variable_or_empty : Option String → String
variable_or_empty none = ""
variable_or_empty (some s) = s

abbrev pub is_set : Option String → Bool
is_set none = false
is_set (some s) = true

-- `envString`
unfoldable pub env_string : Environment → String → String → String
env_string env key fallback =
    let value = trim_space (variable_or_empty (env key)) in if value == "" then fallback else value

-- `runtimeStringEnv`: the value, and whether it overrides.
unfoldable pub runtime_string_env : Environment → String → String → String × Bool
runtime_string_env env key fallback =
    let value = trim_space (variable_or_empty (env key)) in
    if not (is_set (env key)) || value == "" then (fallback, false) else (value, true)

-- `runtimeOptionalStringEnv`: an empty value overrides too.
unfoldable pub runtime_optional_string_env : Environment → String → String → String × Bool
runtime_optional_string_env env key fallback = elim (env key) [
  | none ↦ (fallback, false)
  | some raw ↦ (trim_space raw, true)
]

-- The result of `strconv.Atoi`, if it is a port.
unfoldable pub accept_port : ℤ → Option ℤ → ℤ × Bool
accept_port fallback none = (fallback, false)
accept_port fallback (some (negsuc n)) = (fallback, false)
accept_port fallback (some (pos n)) =
    if eqb n 0 || ltb 65535 n then (fallback, false) else (pos n, true)

-- `runtimePortEnv`
unfoldable pub runtime_port_env : Environment → String → ℤ → ℤ × Bool
unfolding accept_port
runtime_port_env env key fallback =
    let value = trim_space (variable_or_empty (env key)) in
    if not (is_set (env key)) || value == ""
    then (fallback, false)
    else accept_port fallback (atoi value)

-- `runtimeBoolEnv`
unfoldable pub runtime_bool_env : Environment → String → Bool → Bool × Bool
runtime_bool_env env key fallback =
    let value = trim_space (variable_or_empty (env key)) in
    if not (is_set (env key)) || value == ""
    then (fallback, false)
    else if lowers_to value "1"
        || lowers_to value "true"
        || lowers_to value "yes"
        || lowers_to value "on"
    then (true, true)
    else if lowers_to value "0"
        || lowers_to value "false"
        || lowers_to value "no"
        || lowers_to value "off"
    then (false, true)
    else (fallback, false)

-- `splitFields`: a comma separates as white space does.
unfoldable pub split_fields : String → List String
split_fields s = fields_by (λ c. is_space c || eqb (code c) b',') s

abbrev pub default_tg_targets : String
default_tg_targets = "hermes-gateway user:root:hermes-gateway"

-- The first half of `DefaultConfig`: the literal, then what the environment overrides.
unfoldable pub overridden_config : Environment → Config
unfolding env_string runtime_string_env runtime_optional_string_env runtime_port_env
    runtime_bool_env split_fields
overridden_config env =
    let host = runtime_string_env env "PROXYSCENE_HOST" "127.0.0.1" in
    let dev = runtime_port_env env "PROXYSCENE_DEV_HTTP_PORT" (pos 7891) in
    let tg_http = runtime_port_env env "PROXYSCENE_TG_HTTP_PORT" (pos 7892) in
    let tg_socks = runtime_port_env env "PROXYSCENE_TG_SOCKS_PORT" (pos 7893) in
    let global_http = runtime_port_env env "PROXYSCENE_GLOBAL_HTTP_PORT" (pos 7890) in
    let global_socks = runtime_port_env env "PROXYSCENE_GLOBAL_SOCKS_PORT" (pos 7894) in
    let user = runtime_string_env env "PROXYSCENE_SERVICE_USER" "proxyscene" in
    let targets = runtime_optional_string_env env "PROXYSCENE_TG_SERVICES" default_tg_targets in
    let dev_user = runtime_optional_string_env env "PROXYSCENE_DEV_TARGET_USER" "" in
    let manage = runtime_bool_env env "PROXYSCENE_MANAGE_OPENCLAW_CONFIG" true in
    let public = runtime_bool_env env "PROXYSCENE_ALLOW_PUBLIC_BIND" false in
    record {
      core_dir = env_string env "PROXYSCENE_MANAGER_DIR" "/opt/proxyscene";
      proxy_host = host.0;
      dev_http_port = dev.0;
      tg_http_port = tg_http.0;
      tg_socks_port = tg_socks.0;
      global_http_port = global_http.0;
      global_socks_port = global_socks.0;
      install_bin = env_string env "PROXYSCENE_SWITCH_BIN" "/usr/local/bin/proxyscene";
      systemd_service = env_string env "PROXYSCENE_SYSTEMD_SERVICE_NAME" "proxyscene.service";
      restore_service =
          env_string env "PROXYSCENE_BOOT_RESTORE_SERVICE_NAME" "proxyscene-restore.service";
      xray_service_user = user.0;
      tg_target_services = split_fields targets.0;
      dev_target_user = dev_user.0;
      test_url = env_string env "PROXYSCENE_TEST_URL" "https://www.google.com/generate_204";
      manage_open_claw_config = manage.0;
      allow_public_bind = public.0;
      runtime_overrides = record {
        proxy_host = host.1;
        dev_http_port = dev.1;
        tg_http_port = tg_http.1;
        tg_socks_port = tg_socks.1;
        global_http_port = global_http.1;
        global_socks_port = global_socks.1;
        xray_service_user = user.1;
        tg_target_services = targets.1;
        dev_target_user = dev_user.1;
        manage_open_claw_config = manage.1;
        allow_public_bind = public.1;
      };
    }

unfoldable pub failed : Result (Unit {0}) → Bool
failed (ok u) = false
failed (err e) = true

abbrev pub is_literal : Option Bool → Bool
is_literal none = false
is_literal (some loopback) = true

-- The four checks of the second half: a bad override falls back to the default, unmasked.
unfoldable pub check_host : Platform → Config → Config
check_host p c =
    if c.runtime_overrides.proxy_host && not (is_literal (p.parse_ip c.proxy_host))
    then record c {
      proxy_host = "127.0.0.1";
      runtime_overrides = record c.runtime_overrides { proxy_host = false };
    }
    else c

unfoldable pub check_service_user : Config → Config
unfolding failed
check_service_user c =
    if c.runtime_overrides.xray_service_user && failed (validate_user_name c.xray_service_user)
    then record c {
      xray_service_user = "proxyscene";
      runtime_overrides = record c.runtime_overrides { xray_service_user = false };
    }
    else c

unfoldable pub check_dev_user : Config → Config
unfolding failed
check_dev_user c =
    if c.runtime_overrides.dev_target_user && failed (validate_user_name c.dev_target_user)
    then record c {
      dev_target_user = "";
      runtime_overrides = record c.runtime_overrides { dev_target_user = false };
    }
    else c

unfoldable pub check_target_services : Config → Config
unfolding failed
check_target_services c =
    if c.runtime_overrides.tg_target_services
      && any_of (λ t. failed (safe_systemd_target_name t)) c.tg_target_services
    then record c {
      tg_target_services = split_fields default_tg_targets;
      runtime_overrides = record c.runtime_overrides { tg_target_services = false };
    }
    else c

-- `DefaultConfig`
unfoldable pub default_config : Platform → Environment → Config
unfolding check_host check_service_user check_dev_user check_target_services overridden_config
default_config p env =
    check_target_services
      (check_dev_user (check_service_user (check_host p (overridden_config env))))
