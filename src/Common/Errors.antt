-- ===== src/Common/Errors.antt =====
-- Errors as values: Go's `(T, error)` with one constructor for each place that makes an error.
use mathlib.Core.Path.{◌≡◌, refl, ap}
use mathlib.Core.Bool.{Bool, true, false}
use native.Mathlib.Omega.{arith}

pub data Error : Type 0 where
  empty_target unsafe_target template_target empty_host bad_host public_host : Error
  empty_user bad_user bad_port port_conflict empty_url bad_url too_many_targets : Error
  bad_target bad_link empty_link long_link long_name unsupported_node bad_version : Error
  bad_subscription bad_source bad_node_id too_many_sources bad_node_url bad_protocol : Error
  timed_out bad_scene bad_result too_many_nodes too_many_subscriptions : Error
  scene_without_node bad_default no_node no_fresh_id bad_node unknown_scope : Error
  unknown_scene generation_exhausted missing_file unreadable_file empty_file bad_json : Error
  write_failed store_too_large bad_update_version no_subscription bad_selector bad_selection : Error
  already_managed index_out_of_range invalid_subscription duplicate_subscription empty_name
        none_usable :
      Error
  bad_transition foreign_transition bad_phase bad_candidate_digest stale_candidate : Error
  bad_evidence bad_compensation bad_metadata_transition bad_resources bad_step : Error
  transition_too_large store_changed store_not_committed no_generation foreign_quarantine : Error
  pending_transition phase_conflict changed_after_commit identity_mismatch : Error
  bad_restore_plan values_changed restore_mismatch unfinished_restore bad_dev_value
        too_many_dev_values backup_too_large :
      Error
  restart_unsettled unconfirmed_commit resources_changed unknown_history io_failed : Error

-- An error, or the value of a call that went through.
pub data Result {κ} (V : Type κ) : Type κ where
  err : Error → Result V
  ok : V → Result V

-- The next call, unless there was an error: `if err != nil { return err }`.
abbrev pub ◌>>=◌ {κ μ} : {V : Type κ} {W : Type μ} → Result V → (V → Result W) → Result W
err failure >>= next = err failure
ok value >>= next = next value

abbrev pub ◌>>◌ {κ} : {W : Type κ} → Result (Unit {0}) → Result W → Result W
check >> next = check >>= λ u. next

infixl 5 ◌>>=◌ ◌>>◌
-- `if bad { return e }`
abbrev pub reject_if : Bool → Error → Result (Unit {0})
reject_if true e = err e
reject_if false e = ok tt

pub accepted : (b : Bool) (e : Error) {u : Unit {0}} → reject_if b e ≡ ok u → b ≡ false
accepted b e h = ground arith

-- What a successful bind went through: the call before gave a value, from which the next one went.
pub >>=-eq-ok {κ μ} :
    {V : Type κ} {W : Type μ} (call : Result V) (next : V → Result W) {w : W}
    → (call >>= next) ≡ ok w
    → (v : V) × (call ≡ ok v) × (next v ≡ ok w)
>>=-eq-ok (err failure) next passed = cc
>>=-eq-ok (ok v) next passed = (v, refl, passed)

pub >>-eq-ok {κ} :
    {W : Type κ} (check : Result (Unit {0})) (next : Result W) {w : W}
    → (check >> next) ≡ ok w
    → (check ≡ ok tt) × (next ≡ ok w)
>>-eq-ok (err failure) next passed = cc
>>-eq-ok (ok u) next passed = (refl, passed)

value_of {ℓ} : {A : Type ℓ} → A → Result A → A
value_of a (ok b) = b
value_of a (err e) = a

pub ok-injective {ℓ} : {A : Type ℓ} {a b : A} → ok a ≡ ok b → a ≡ b
unfolding value_of
ok-injective {a = a} h = ap (value_of a) h
