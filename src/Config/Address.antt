-- ===== src/Config/Address.antt =====
-- The addresses of the proxies (internal/manager/types.go). `net.JoinHostPort`, of a host and of a
-- port in decimal digits, is the argument `join`.
use Prim.Native.String.{◌++◌}
use proxyscene.Common.{String, if◌then◌else◌, ℤ, ◌==◌}
use proxyscene.Config.{Config, Scene, scene_dev, scene_telegram}

-- `Config.HTTPAddr`
unfoldable pub http_addr : (String → ℤ → String) → Config → Scene → String
http_addr join c scene =
    if scene == scene_dev
    then "http://" ++ join c.proxy_host c.dev_http_port
    else if scene == scene_telegram
    then "http://" ++ join c.proxy_host c.tg_http_port
    else "http://" ++ join c.proxy_host c.global_http_port

-- `Config.TGSocksAddr`
unfoldable pub tg_socks_addr : (String → ℤ → String) → Config → String
tg_socks_addr join c = "socks5h://" ++ join c.proxy_host c.tg_socks_port

-- `Config.GlobalSocksAddr`
unfoldable pub global_socks_addr : (String → ℤ → String) → Config → String
global_socks_addr join c = "socks5h://" ++ join c.proxy_host c.global_socks_port
