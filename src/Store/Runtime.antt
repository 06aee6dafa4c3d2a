-- ===== src/Store/Runtime.antt =====
-- The configuration of the process next to the stored one (internal/manager/store.go): whether they
-- differ, and the configuration that the stored runtime runs with.
use proxyscene.Common.{
  >>-eq-ok, Bool, Option, Result, false, length, ltb, none, not, ok, ok-injective, refl, some,
  subst, sym, ◌>>◌, ◌||◌, ◌≡◌,
}
use proxyscene.Config.{
  Config, RuntimeConfig, any_override, apply_to, no_overrides, runtime_config,
  runtime_config_version, runtime_configs_equal,
}
use proxyscene.Config.RoundTrip.{runtime_configs_equal_iff}
use proxyscene.Config.Validate.{validate_runtime}
use proxyscene.Store.{Store, has_enabled_scene}
use proxyscene.Store.Validate.{Checker}

-- `runtimeConfigDiffers`, of a store that is there.
unfoldable pub runtime_config_differs : Config → Store → Bool
unfolding has_enabled_scene runtime_configs_equal
runtime_config_differs process st = elim st.stored_config [
  | none ↦
      has_enabled_scene st
      || ltb 0 (length st.telegram_targets)
      || any_override process.runtime_overrides
  | some r ↦ not (runtime_configs_equal (some r) (some (runtime_config process)))
]

-- `appForStoreRuntime`, of a store that is there: the configuration of the new application.
unfoldable pub app_for_store_runtime : Checker → Config → Store → Result Config
unfolding apply_to
app_for_store_runtime k process st = do
  let c = record (apply_to st.stored_config process) { runtime_overrides = no_overrides }
  validate_runtime k.platform (k.order c) c
  ok c

runtime_of_stored :
    (o : Option RuntimeConfig) (process : Config) (r : RuntimeConfig)
    → o ≡ some r
    → r.version ≡ runtime_config_version
    → runtime_config (record (apply_to o process) { runtime_overrides = no_overrides }) ≡ r
unfolding runtime_config apply_to
runtime_of_stored o process r stored version =
    subst
      (λ z. runtime_config (record (apply_to z process) { runtime_overrides = no_overrides }) ≡ r)
      (sym stored) (λ i. record r { version = sym version i })

-- A process of the configuration that the stored runtime runs with does not differ from the store,
-- where that holds a configuration of the current version.
pub app_for_store_runtime_same :
    (k : Checker) (process : Config) (st : Store) (r : RuntimeConfig) {c : Config}
    → st.stored_config ≡ some r
    → r.version ≡ runtime_config_version
    → app_for_store_runtime k process st ≡ ok c
    → runtime_config_differs c st ≡ false
unfolding runtime_config_differs app_for_store_runtime
app_for_store_runtime_same k process st r {c} stored version h =
    let started = record (apply_to st.stored_config process) { runtime_overrides = no_overrides } in
    let (_, h) = >>-eq-ok (validate_runtime k.platform (k.order started) started) _ h in
    let same : runtime_config c ≡ r =
      subst (λ z. runtime_config z ≡ r) (ok-injective h)
        (runtime_of_stored st.stored_config process r stored version) in
    rw (stored, same, (runtime_configs_equal_iff (some r) (some r)).1 refl)
