-- ===== src/Config/RoundTrip.antt =====
-- The comparison of stored configurations (internal/manager/types.go).
use proxyscene.Common.{
  Bool, Option, and-eq-true, ap, arith, eq_iff, eq_refl, int_eqb_iff, int_eqb_refl, none, some,
  subst, texts_equal_iff, texts_equal_refl, true, ◌↔◌, ◌≡◌,
}
use proxyscene.Config.{RuntimeConfig, bool_eqb, runtime_configs_equal}

pub bool_eqb→eq : (a b : Bool) → bool_eqb a b ≡ true → a ≡ b
unfolding bool_eqb
bool_eqb→eq a b h = ground arith

-- Equal fields make equal records.
same_fields : (l r : RuntimeConfig) → runtime_configs_equal (some l) (some r) ≡ true → l ≡ r
unfolding runtime_configs_equal
same_fields l r h =
    let (h, e11) = and-eq-true _ _ h in
    let (h, e10) = and-eq-true _ _ h in
    let (h, e9) = and-eq-true _ _ h in
    let (h, e8) = and-eq-true _ _ h in
    let (h, e7) = and-eq-true _ _ h in
    let (h, e6) = and-eq-true _ _ h in
    let (h, e5) = and-eq-true _ _ h in
    let (h, e4) = and-eq-true _ _ h in
    let (h, e3) = and-eq-true _ _ h in
    let (h, e2) = and-eq-true _ _ h in
    let (e0, e1) = and-eq-true _ _ h in
    λ i. record {
      version = (int_eqb_iff l.version r.version).0 e0 i;
      proxy_host = (eq_iff l.proxy_host r.proxy_host).0 e1 i;
      dev_http_port = (int_eqb_iff l.dev_http_port r.dev_http_port).0 e2 i;
      tg_http_port = (int_eqb_iff l.tg_http_port r.tg_http_port).0 e3 i;
      tg_socks_port = (int_eqb_iff l.tg_socks_port r.tg_socks_port).0 e4 i;
      global_http_port = (int_eqb_iff l.global_http_port r.global_http_port).0 e5 i;
      global_socks_port = (int_eqb_iff l.global_socks_port r.global_socks_port).0 e6 i;
      xray_service_user = (eq_iff l.xray_service_user r.xray_service_user).0 e7 i;
      tg_target_services = (texts_equal_iff l.tg_target_services r.tg_target_services).0 e8 i;
      dev_target_user = (eq_iff l.dev_target_user r.dev_target_user).0 e9 i;
      manage_open_claw_config =
          bool_eqb→eq l.manage_open_claw_config r.manage_open_claw_config e10 i;
      allow_public_bind = bool_eqb→eq l.allow_public_bind r.allow_public_bind e11 i;
    }

pub bool_eqb_refl : (b : Bool) → bool_eqb b b ≡ true
unfolding bool_eqb
bool_eqb_refl b = ground arith

runtime_configs_equal_refl : (r : RuntimeConfig) → runtime_configs_equal (some r) (some r) ≡ true
unfolding runtime_configs_equal
runtime_configs_equal_refl r = simp (eq_refl, int_eqb_refl, texts_equal_refl, bool_eqb_refl)

-- `runtimeConfigsEqual` answers true exactly at two nil pointers and at two configurations that
-- agree in every field.
pub runtime_configs_equal_iff :
    (l r : Option RuntimeConfig) → (runtime_configs_equal l r ≡ true) ↔ (l ≡ r)
unfolding runtime_configs_equal
runtime_configs_equal_iff none none = ground arith
runtime_configs_equal_iff none (some r) = ground arith
runtime_configs_equal_iff (some l) none = ground arith
runtime_configs_equal_iff (some l) (some r) = (
  λ h. ap some (same_fields l r h),
  λ e. subst (λ o. runtime_configs_equal (some l) o ≡ true) e (runtime_configs_equal_refl l),
)
