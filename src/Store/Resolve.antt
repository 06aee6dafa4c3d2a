-- ===== src/Store/Resolve.antt =====
-- The configuration that a process goes on with, saved and resolved again (internal/manager/types.go,
-- store.go).
use proxyscene.Common.{Bool, Option, ap, false, if◌then◌else◌, none, refl, some, true, ◌∙◌, ◌≡◌}
use proxyscene.Config.{Config, RuntimeConfig, apply_runtime_overrides, apply_to, runtime_config}
use proxyscene.Store.Persist.{resolve_runtime}

if_again :
    {A : Type 0} (b : Bool) (x y : A)
    → (if b then x else (if b then x else y)) ≡ (if b then x else y)
if_again true x y = refl
if_again false x y = refl

-- Overriding twice is overriding once.
overrides_again :
    (c from : Config)
    → apply_runtime_overrides (apply_runtime_overrides c from) from ≡ apply_runtime_overrides c from
unfolding apply_runtime_overrides
overrides_again c from =
    let m = from.runtime_overrides in
    λ i. record (apply_runtime_overrides c from) {
      proxy_host = if_again m.proxy_host from.proxy_host c.proxy_host i;
      dev_http_port = if_again m.dev_http_port from.dev_http_port c.dev_http_port i;
      tg_http_port = if_again m.tg_http_port from.tg_http_port c.tg_http_port i;
      tg_socks_port = if_again m.tg_socks_port from.tg_socks_port c.tg_socks_port i;
      global_http_port = if_again m.global_http_port from.global_http_port c.global_http_port i;
      global_socks_port = if_again m.global_socks_port from.global_socks_port c.global_socks_port i;
      xray_service_user = if_again m.xray_service_user from.xray_service_user c.xray_service_user i;
      tg_target_services =
          if_again m.tg_target_services from.tg_target_services c.tg_target_services i;
      dev_target_user = if_again m.dev_target_user from.dev_target_user c.dev_target_user i;
      manage_open_claw_config =
          if_again m.manage_open_claw_config from.manage_open_claw_config c.manage_open_claw_config
            i;
      allow_public_bind = if_again m.allow_public_bind from.allow_public_bind c.allow_public_bind i;
    }

saved_and_applied :
    (stored : Option RuntimeConfig) (process : Config)
    → let c = resolve_runtime true stored process in apply_to (some (runtime_config c)) process ≡ c
unfolding resolve_runtime apply_to runtime_config apply_runtime_overrides
saved_and_applied none process = refl
saved_and_applied (some r) process = refl

-- The configuration that a process resolves, once it is saved, is what a process of the same own
-- configuration resolves again, at boot without its overrides as well as with them.
pub resolve_runtime_again :
    (stored : Option RuntimeConfig) (process : Config) (allow_overrides : Bool)
    → let c = resolve_runtime true stored process in
      resolve_runtime allow_overrides (some (runtime_config c)) process ≡ c
unfolding resolve_runtime
resolve_runtime_again stored process false = saved_and_applied stored process
resolve_runtime_again stored process true =
    ap (λ c. apply_runtime_overrides c process) (saved_and_applied stored process)
    ∙ overrides_again (apply_to stored process) process
