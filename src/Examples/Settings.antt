-- ===== src/Examples/Settings.antt =====
-- Configurations and texts.
use mathlib.Core.List.{Permᴰ}
use mathlib.Core.List.Permᴰ
use proxyscene.Common.{
  All, [], contains, every_rune, false, len, none, ok, pos, refl, some, trim_space, true, ◌↔◌, ◌∷◌,
  ◌≡◌, ◌≢◌, ◌≤◌,
}
use proxyscene.Config.{Config, empty_config, no_overrides, runtime_config, runtime_configs_equal}
use proxyscene.Config.Accepts.{IsRunnable, validate_runtime_iff}
use proxyscene.Config.Ports.{IsDistinct, IsPort, check_ports_iff}
use proxyscene.Config.RoundTrip.{runtime_configs_equal_iff}
use proxyscene.Config.Validate.{check_ports, ports_of, validate_runtime}
use proxyscene.Examples.Stores.{test_checker, test_platform, two_nodes}
use proxyscene.Store.{Store}
use proxyscene.Store.Persist.{resolve_runtime}
use proxyscene.Store.Resolve.{resolve_runtime_again}
use proxyscene.Store.Runtime.{
  app_for_store_runtime, app_for_store_runtime_same, runtime_config_differs,
}
use proxyscene.Systemd.{safe_systemd_target_name, validate_user_name}
use proxyscene.Text.{is_shown, sanitize_display_text, sanitize_node_name}
use proxyscene.Text.Sanitize.{sanitize_display_text_clean, sanitize_node_name_clean}

abbrev pub test_config : Config
test_config = record empty_config {
  proxy_host = "127.0.0.1";
  dev_http_port = pos 18080;
  tg_http_port = pos 18081;
  tg_socks_port = pos 18082;
  global_http_port = pos 18083;
  global_socks_port = pos 18084;
  xray_service_user = "xray";
  tg_target_services = "bot.service" ∷ [];
}

validate_runtime_iff_example :
    (validate_runtime test_platform (ports_of test_config) test_config ≡ ok tt)
    ↔ IsRunnable test_platform test_config
validate_runtime_iff_example =
    validate_runtime_iff test_platform test_config (Permᴰ.refl (ports_of test_config))

check_ports_iff_example :
    (check_ports [] (pos 81 ∷ pos 80 ∷ []) ≡ ok tt)
    ↔ (All IsPort (pos 80 ∷ pos 81 ∷ []) × IsDistinct (pos 80 ∷ pos 81 ∷ []))
check_ports_iff_example = check_ports_iff (Permᴰ.swap refl refl)

runtime_configs_equal_iff_example :
    (runtime_configs_equal (some (runtime_config test_config)) none ≡ true)
    ↔ (some (runtime_config test_config) ≡ none)
runtime_configs_equal_iff_example =
    runtime_configs_equal_iff (some (runtime_config test_config)) none

resolve_runtime_again_example :
    let c = resolve_runtime true (some (runtime_config test_config)) empty_config in
    resolve_runtime false (some (runtime_config c)) empty_config ≡ c
resolve_runtime_again_example =
    resolve_runtime_again (some (runtime_config test_config)) empty_config false

sanitize_display_text_clean_example :
    (every_rune is_shown (sanitize_display_text "a\nb" 2) ≡ true)
    × (len (sanitize_display_text "a\nb" 2) ≤ 2)
    × (sanitize_display_text (sanitize_display_text "a\nb" 2) 2 ≡ sanitize_display_text "a\nb" 2)
sanitize_display_text_clean_example = sanitize_display_text_clean "a\nb" 2

sanitize_node_name_clean_example :
    (sanitize_node_name " n\n" ≢ "")
    × (every_rune is_shown (sanitize_node_name " n\n") ≡ true)
    × (sanitize_node_name (sanitize_node_name " n\n") ≡ sanitize_node_name " n\n")
sanitize_node_name_clean_example = sanitize_node_name_clean " n\n"

-- The store with two nodes, with a stored configuration.
abbrev configured : Store
configured = record two_nodes { stored_config = some (runtime_config test_config) }

abbrev started : Config
started = record test_config { runtime_overrides = no_overrides }

app_started : app_for_store_runtime test_checker empty_config configured ≡ ok started
unfolding app_for_store_runtime validate_runtime trim_space runtime_config validate_user_name
    contains safe_systemd_target_name
app_started = refl

app_for_store_runtime_same_example : runtime_config_differs started configured ≡ false
unfolding runtime_config
app_for_store_runtime_same_example =
    app_for_store_runtime_same test_checker empty_config configured (runtime_config test_config)
      refl refl app_started
