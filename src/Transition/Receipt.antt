-- ===== src/Transition/Receipt.antt =====
-- The record of the transaction on the disk: `validateRuntimeTransition`, `writeRuntimeTransition`,
-- `readRuntimeTransition`, `removeRuntimeTransition` and `hasRuntimeTransition`
-- (internal/manager/runtime_transition.go).
use proxyscene.Common.{
  Bool, Char, List, Option, Result, String, [], bad_candidate_digest, bad_compensation,
  bad_evidence, bad_json, bad_metadata_transition, bad_phase, bad_resources, bad_step,
  bad_transition, between, code, contains, eqb, err, every_rune, false, foreign_transition,
  if◌then◌else◌, int_eqb, leb, len, length, ltb, missing_file, none, not, ok, pos, reject_if, some,
  stale_candidate, transition_too_large, true, unreadable_file, ℕ, ◌%◌, ◌&&◌, ◌*◌, ◌+◌, ◌-◌, ◌==◌,
  ◌>>=◌, ◌>>◌, ◌||◌, ◌∷◌,
}
use proxyscene.Config.{Config, runtime_config, runtime_configs_equal}
use proxyscene.Store.{Store}
use proxyscene.Store.Persist.{max_store_bytes}
use proxyscene.Transition.{
  Action, Evidence, Host, Machine, Phase, RecordFile, Stage, Step, TransitionRecord, aside, attempt,
  change, compensating, complete, expected_installation, linked, no_record, observe, other_phase,
  record_text, same_installation, unreadable_record, untouched, ◌▷◌,
}
use proxyscene.Transition.Files.{encoded_store}

abbrev pub max_transition_bytes : ℕ
max_transition_bytes = 3 * max_store_bytes + 33554432

abbrev is_hex_digit : Char → Bool
is_hex_digit c = let n = code c in between b'0' b'9' n || between b'a' b'f' n || between b'A' b'F' n

-- `hex.DecodeString` returns no error: hexadecimal digits, two for each byte.
unfoldable pub is_hex_text : String → Bool
is_hex_text s = every_rune is_hex_digit s && eqb (len s % 2) 0

unfoldable pub check_evidence : Evidence → Result (Unit {0})
check_evidence e = do
  reject_if (not (is_hex_text e.digest)) bad_evidence
  reject_if ((not e.present && not (e.digest == "")) || (e.present && not (eqb (len e.digest) 64)))
      bad_evidence

unfoldable pub check_phase : Phase → Result (Unit {0})
check_phase (other_phase p) = err bad_phase
check_phase _ = ok tt

abbrev pub is_compensating : Phase → Bool
is_compensating compensating = true
is_compensating _ = false

abbrev pub has_some {ℓ} : {A : Type ℓ} → Option A → Bool
has_some none = false
has_some (some a) = true

module _ {C R T X J : Type 0} (h : Host C R T X J) where
  unfoldable pub encodes : Store → Result (Unit {0})
  encodes st = do text ← encoded_store h st; ok tt

  unfoldable pub check_compensation : TransitionRecord C R → Option Store → Result (Unit {0})
  check_compensation r none = ok tt
  check_compensation r (some st) = do
    encodes st
    reject_if
        (not (is_compensating r.phase)
          || leb st.generation r.candidate.generation
          || not (h.same_store (record r.before { generation = st.generation }) st))
        bad_compensation

  unfoldable pub check_core_step : Option C → Result (Unit {0})
  check_core_step none = err bad_step
  check_core_step (some c) = reject_if (h.is_noop c) bad_step

  unfoldable pub check_step_name : TransitionRecord C R → R → String → Result (Unit {0})
  check_step_name r resources name =
      if name == "core"
      then check_core_step r.core
      else reject_if (not (contains (h.scenes_of resources) name)) bad_step

  -- The steps: none twice, none restored before it started, each in the plan.
  unfoldable pub check_steps :
      TransitionRecord C R → R → List String → List Step → Result (Unit {0})
  check_steps r resources seen [] = ok tt
  check_steps r resources seen (s ∷ rest) = do
    reject_if (contains seen s.name || (not s.started && s.restored)) bad_step
    check_step_name r resources s.name
    check_steps r resources (s.name ∷ seen) rest

  unfoldable pub check_plan : TransitionRecord C R → Option R → Result (Unit {0})
  check_plan r none =
      reject_if
        (has_some r.core
          || ltb 0 (length r.steps)
          || not (h.same_config r.before.stored_config r.candidate.stored_config))
        bad_metadata_transition
  check_plan r (some resources) = do
    h.check_core_record r.core
    h.check_resources resources
    let candidate_owner = expected_installation (h.candidate_config resources)
    let before_owner = expected_installation (h.before_config resources)
    reject_if
        (not (same_installation candidate_owner r.installation)
          || not (same_installation before_owner r.installation))
        foreign_transition
    let config = some (runtime_config (h.candidate_config resources))
    reject_if
        (not (has_some r.candidate.stored_config)
          || not (runtime_configs_equal r.candidate.stored_config config))
        bad_resources
    check_steps r resources [] r.steps

  -- `validateRuntimeTransition`, of a record that is there.
  unfoldable pub validate_transition : Config → TransitionRecord C R → Result (Unit {0})
  validate_transition app r = do
    reject_if (not (int_eqb r.version (pos 1)) || ltb 4 (length r.steps)) bad_transition
    reject_if (not (same_installation r.installation (expected_installation app)))
        foreign_transition
    check_phase r.phase
    encodes r.before
    encodes r.candidate
    text ← encoded_store h r.candidate
    reject_if (not (h.content_digest text == r.candidate_digest)) bad_candidate_digest
    reject_if (leb r.candidate.generation r.before.generation) stale_candidate
    check_evidence r.before_main
    check_evidence r.before_backup
    check_compensation r r.compensation
    check_plan r r.resources

  unfoldable pub recorded : J → Stage → Machine X J → Machine X J
  recorded text untouched m = m
  recorded text aside m = m
  recorded text linked m = record m { journal = record_text text }
  recorded text complete m = record m { journal = record_text text }

  -- `writeRuntimeTransition`
  unfoldable pub write_transition : Config → TransitionRecord C R → Action X J (Unit {0})
  write_transition app r = attempt (validate_transition app r) ▷ λ u.
      attempt (
        reject_if (ltb max_transition_bytes (h.record_size (h.write_record r) - 1))
          transition_too_large)
      ▷ λ v. change h (recorded (h.write_record r))

  unfoldable pub parsed : Config → Option (TransitionRecord C R) → Result (TransitionRecord C R)
  parsed app none = err bad_json
  parsed app (some r) = do validate_transition app r; ok r

  unfoldable pub decoded_record : Config → RecordFile J → Result (TransitionRecord C R)
  decoded_record app no_record = err missing_file
  decoded_record app unreadable_record = err unreadable_file
  decoded_record app (record_text text) =
      if ltb max_transition_bytes (h.record_size text)
      then err transition_too_large
      else parsed app (h.parse_record text)

  -- `readRuntimeTransition`
  unfoldable pub read_transition : Config → Action X J (TransitionRecord C R)
  read_transition app = observe h (λ m. decoded_record app m.journal)

  unfoldable pub removed : Stage → Machine X J → Machine X J
  removed untouched m = m
  removed aside m = m
  removed linked m = record m { journal = no_record }
  removed complete m = record m { journal = no_record }

  -- `removeRuntimeTransition`
  unfoldable pub remove_transition : Action X J (Unit {0})
  remove_transition = change h removed

  unfoldable pub is_pending : RecordFile J → Result Bool
  is_pending no_record = ok false
  is_pending unreadable_record = err unreadable_file
  is_pending (record_text text) =
      if ltb max_transition_bytes (h.record_size text) then err transition_too_large else ok true

  -- `hasRuntimeTransition`
  unfoldable pub has_transition : Action X J Bool
  has_transition = observe h (λ m. is_pending m.journal)
