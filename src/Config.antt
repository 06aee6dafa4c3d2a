-- ===== src/Config.antt =====
-- The configuration of internal/manager/types.go: `Config`, the part of it that the store keeps
-- (`RuntimeConfig`), and the mask of the fields that the environment overrides.
pub mod Env
pub mod Validate
pub mod RoundTrip
pub mod Ports
pub mod Accepts
pub mod Address
use proxyscene.Common.{
  Bool, List, Option, String, [], any_of, false, if◌then◌else◌, int_eqb, ltb, negsuc, none, not,
  pos, some, texts_equal, true, ℤ, ◌&&◌, ◌==◌, ◌>>=◌, ◌>>◌, ◌||◌, ◌∷◌,
}

-- `Scene`: a string type, so that a decoded store may hold an unknown one.
abbrev pub Scene : Type 0
Scene = String

abbrev pub scene_global : Scene
scene_global = "global"

abbrev pub scene_dev : Scene
scene_dev = "dev"

abbrev pub scene_telegram : Scene
scene_telegram = "telegram"

-- `runtimeConfigOverrideMask`
pub record OverrideMask : Type 0 where
  pub proxy_host : Bool
  pub dev_http_port : Bool
  pub tg_http_port : Bool
  pub tg_socks_port : Bool
  pub global_http_port : Bool
  pub global_socks_port : Bool
  pub xray_service_user : Bool
  pub tg_target_services : Bool
  pub dev_target_user : Bool
  pub manage_open_claw_config : Bool
  pub allow_public_bind : Bool

-- `runtimeConfigOverrideMask{}`
abbrev pub no_overrides : OverrideMask
no_overrides = record {
  proxy_host = false;
  dev_http_port = false;
  tg_http_port = false;
  tg_socks_port = false;
  global_http_port = false;
  global_socks_port = false;
  xray_service_user = false;
  tg_target_services = false;
  dev_target_user = false;
  manage_open_claw_config = false;
  allow_public_bind = false;
}

-- `runtimeConfigOverrideMask.any`
unfoldable pub any_override : OverrideMask → Bool
any_override m =
    m.proxy_host || m.dev_http_port || m.tg_http_port || m.tg_socks_port || m.global_http_port
    || m.global_socks_port || m.xray_service_user || m.tg_target_services || m.dev_target_user
    || m.manage_open_claw_config || m.allow_public_bind

-- `Config`
pub record Config : Type 0 where
  pub core_dir : String
  pub proxy_host : String
  pub dev_http_port : ℤ
  pub tg_http_port : ℤ
  pub tg_socks_port : ℤ
  pub global_http_port : ℤ
  pub global_socks_port : ℤ
  pub install_bin : String
  pub systemd_service : String
  pub restore_service : String
  pub xray_service_user : String
  pub tg_target_services : List String
  pub dev_target_user : String
  pub test_url : String
  pub manage_open_claw_config : Bool
  pub allow_public_bind : Bool
  pub runtime_overrides : OverrideMask

-- `Config{TestURL: ...}`: every other field is the zero value.
abbrev pub empty_config : Config
empty_config = record {
  core_dir = "";
  proxy_host = "";
  dev_http_port = pos 0;
  tg_http_port = pos 0;
  tg_socks_port = pos 0;
  global_http_port = pos 0;
  global_socks_port = pos 0;
  install_bin = "";
  systemd_service = "";
  restore_service = "";
  xray_service_user = "";
  tg_target_services = [];
  dev_target_user = "";
  test_url = "https://www.google.com/generate_204";
  manage_open_claw_config = false;
  allow_public_bind = false;
  runtime_overrides = no_overrides;
}

-- `RuntimeConfig`
pub record RuntimeConfig : Type 0 where
  pub version : ℤ
  pub proxy_host : String
  pub dev_http_port : ℤ
  pub tg_http_port : ℤ
  pub tg_socks_port : ℤ
  pub global_http_port : ℤ
  pub global_socks_port : ℤ
  pub xray_service_user : String
  pub tg_target_services : List String
  pub dev_target_user : String
  pub manage_open_claw_config : Bool
  pub allow_public_bind : Bool

-- `runtimeConfigVersion`
abbrev pub runtime_config_version : ℤ
runtime_config_version = pos 1

-- `Config.runtimeConfig`; the slice is copied, which values do by themselves.
unfoldable pub runtime_config : Config → RuntimeConfig
runtime_config c = record {
  version = runtime_config_version;
  proxy_host = c.proxy_host;
  dev_http_port = c.dev_http_port;
  tg_http_port = c.tg_http_port;
  tg_socks_port = c.tg_socks_port;
  global_http_port = c.global_http_port;
  global_socks_port = c.global_socks_port;
  xray_service_user = c.xray_service_user;
  tg_target_services = c.tg_target_services;
  dev_target_user = c.dev_target_user;
  manage_open_claw_config = c.manage_open_claw_config;
  allow_public_bind = c.allow_public_bind;
}

-- `RuntimeConfig.applyTo`; `none` is the nil pointer.
unfoldable pub apply_to : Option RuntimeConfig → Config → Config
apply_to none c = c
apply_to (some r) c = record c {
  proxy_host = r.proxy_host;
  dev_http_port = r.dev_http_port;
  tg_http_port = r.tg_http_port;
  tg_socks_port = r.tg_socks_port;
  global_http_port = r.global_http_port;
  global_socks_port = r.global_socks_port;
  xray_service_user = r.xray_service_user;
  tg_target_services = r.tg_target_services;
  dev_target_user = r.dev_target_user;
  manage_open_claw_config = r.manage_open_claw_config;
  allow_public_bind = r.allow_public_bind;
}

-- `Config.applyRuntimeOverrides`: the `if`s of the source, one for each field.
unfoldable pub apply_runtime_overrides : Config → Config → Config
apply_runtime_overrides c from =
    let m = from.runtime_overrides in
    record c {
      proxy_host = if m.proxy_host then from.proxy_host else c.proxy_host;
      dev_http_port = if m.dev_http_port then from.dev_http_port else c.dev_http_port;
      tg_http_port = if m.tg_http_port then from.tg_http_port else c.tg_http_port;
      tg_socks_port = if m.tg_socks_port then from.tg_socks_port else c.tg_socks_port;
      global_http_port = if m.global_http_port then from.global_http_port else c.global_http_port;
      global_socks_port =
          if m.global_socks_port then from.global_socks_port else c.global_socks_port;
      xray_service_user =
          if m.xray_service_user then from.xray_service_user else c.xray_service_user;
      tg_target_services =
          if m.tg_target_services then from.tg_target_services else c.tg_target_services;
      dev_target_user = if m.dev_target_user then from.dev_target_user else c.dev_target_user;
      manage_open_claw_config =
          if m.manage_open_claw_config
          then from.manage_open_claw_config
          else c.manage_open_claw_config;
      allow_public_bind =
          if m.allow_public_bind then from.allow_public_bind else c.allow_public_bind;
    }

unfoldable pub bool_eqb : Bool → Bool → Bool
bool_eqb true b = b
bool_eqb false b = not b

-- `runtimeConfigsEqual`; `none` is the nil pointer.
unfoldable pub runtime_configs_equal : Option RuntimeConfig → Option RuntimeConfig → Bool
unfolding bool_eqb
runtime_configs_equal none none = true
runtime_configs_equal none (some r) = false
runtime_configs_equal (some l) none = false
runtime_configs_equal (some l) (some r) =
    int_eqb l.version r.version
    && l.proxy_host == r.proxy_host
    && int_eqb l.dev_http_port r.dev_http_port
    && int_eqb l.tg_http_port r.tg_http_port
    && int_eqb l.tg_socks_port r.tg_socks_port
    && int_eqb l.global_http_port r.global_http_port
    && int_eqb l.global_socks_port r.global_socks_port
    && l.xray_service_user == r.xray_service_user
    && texts_equal l.tg_target_services r.tg_target_services
    && l.dev_target_user == r.dev_target_user
    && bool_eqb l.manage_open_claw_config r.manage_open_claw_config
    && bool_eqb l.allow_public_bind r.allow_public_bind

-- `Config.needsPrivilegedPortCap`
below_1024 : ℤ → Bool
below_1024 (pos n) = ltb n 1024
below_1024 (negsuc n) = true

unfoldable pub needs_privileged_port_cap : Config → Bool
unfolding below_1024
needs_privileged_port_cap c = any_of below_1024 (
    c.dev_http_port ∷ c.tg_http_port ∷ c.tg_socks_port ∷ c.global_http_port ∷ c.global_socks_port
    ∷ [])
