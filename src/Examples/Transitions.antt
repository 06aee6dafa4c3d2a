-- ===== src/Examples/Transitions.antt =====
-- A transaction with one step, the core, on disks that fail and processes that stop.
use proxyscene.Common.{
  All, Bool, List, Option, Result, String, [], all_of, arith, contains, eqb, every_rune, false,
  if◌then◌else◌, inl, lookup, none, not, ok, pos, refl, some, suc, texts_equal, trim_space, true,
  zero, ℕ, ◌&&◌, ◌<◌, ◌||◌, ◌∷◌, ◌≡◌,
}
use proxyscene.Config.{apply_to, bool_eqb, runtime_config, runtime_configs_equal}
use proxyscene.Config.Address.{global_socks_addr, http_addr}
use proxyscene.Config.Validate.{validate_runtime}
use proxyscene.Examples.Settings.{test_config}
use proxyscene.Examples.Stores.{test_checker}
use proxyscene.Store.{Store, has_enabled_scene, is_enabled, new_store}
use proxyscene.Store.Persist.{absent, bytes, decode_store, highest_store_generation}
use proxyscene.Store.Validate.{validate_store_semantics}
use proxyscene.Systemd.{safe_systemd_target_name, validate_user_name}
use proxyscene.Transition.{
  Area, Ending, Evidence, Fault, Host, Machine, MutationPlan, Stage, TransitionRecord, applying,
  aside, attempt, change, checkpoint, committing, complete, expected_installation, fine, followed,
  linked, no_record, observe, record_text, returned, same_installation, stopped, stops, undone,
  untouched,
}
use proxyscene.Transition.Areas.{allows_first}
use proxyscene.Transition.Checked.{AreNew, IsLater, validate_transition_sound}
use proxyscene.Transition.Commit.{
  check_plan_resources, check_telegram_plan, commit_plan, commit_store, confirm, execute_on,
  execute_step, or_confirm, run_steps, save_planned, settle_commit, validate_mutation,
}
use proxyscene.Transition.Compensate.{
  check_before_compensation, check_file, compensate, compensating_app, finalize,
  finish_compensation, finish_files, highest_generation, recover, recover_read, recover_record,
  reserved, restore_steps, run_undo, undo_on, with_slot, write_compensation, write_unless,
}
use proxyscene.Transition.Completes.{IsClosed, recover_completes}
use proxyscene.Transition.Files.{
  allows, area_at, check_committed, check_committed_file, check_unchanged, compensation_evidence,
  encoded_store, evidence_of, file_evidence, put_back, retired, same_evidence, settle, settle_all,
  settle_claimed, settle_file, store_evidence, swap, swap_where, swapped, with_area,
  write_store_cas,
}
use proxyscene.Transition.Generations.{HasFiles, HasRoom, plan_mutation_room}
use proxyscene.Transition.Metadata.{
  IsIdle, Reached-IsAtomic, Reached-IsSound, behind_commit, behind_recovery,
  commit_metadata-IsSound, compensate_metadata-IsSound, metadata-Laws, metadata_origin,
  recover_metadata-IsSound,
}
use proxyscene.Transition.Outcomes.{Ends}
use proxyscene.Transition.Planning.{
  bytes_equal, commit_store_mutation, core_step, had_core_of, next_generation, observed_store,
  plan_metadata, plan_mutation, plan_runtime, planned_steps, planned_telegram, read_before,
  read_either, runs_core, runtime_scene_changed, scenes_in_plan, scoped_scene, step_of, sync_all,
  sync_none, validate_before, with_dev_user,
}
use proxyscene.Transition.Receipt.{
  check_compensation, check_core_step, check_evidence, check_phase, check_plan, check_step_name,
  check_steps, decoded_record, encodes, has_transition, is_hex_text, is_pending, parsed,
  read_transition, recorded, remove_transition, removed, validate_transition, write_transition,
}
use proxyscene.Transition.Recovered.{IsRecovered}
use proxyscene.Transition.Refused.{IsUntouched, mutation_refused}
use proxyscene.Transition.Sound.{IsAtomic, IsDone, IsReady, IsRestored, IsSound, Origin}

abbrev base : Store
base = record new_store { generation = 1; stored_config = some (runtime_config test_config) }

abbrev at_generation : ℕ → Store
at_generation g = record base { generation = g }

abbrev text_at : ℕ → List ℕ
text_at g = b'{' ∷ g ∷ []

abbrev decode_text : List ℕ → Option Store
decode_text (b ∷ g ∷ []) = some (at_generation g)
decode_text _ = none

-- One text for each generation, as a digest of 64 digits.
abbrev digest_at : List ℕ → String
digest_at (b ∷ g ∷ []) =
    if eqb g 1
    then "1111111111111111111111111111111111111111111111111111111111111111"
    else if eqb g 2
    then "2222222222222222222222222222222222222222222222222222222222222222"
    else "3333333333333333333333333333333333333333333333333333333333333333"
digest_at _ = "0000000000000000000000000000000000000000000000000000000000000000"

abbrev Answer : Type 0
Answer = Unit

-- The step sets its resource to one, and its compensation back to zero.
abbrev test_host : (ℕ → Fault) → Host Answer Answer Answer ℕ (TransitionRecord Answer Answer)
test_host fault = record {
  checker = test_checker;
  codec = record { encode = λ st. text_at st.generation; decode = decode_text };
  content_digest = digest_at;
  write_record = λ r. r;
  parse_record = λ r. some r;
  record_size = λ r. 1;
  same_store = λ a b. true;
  same_config = λ a b. true;
  same_resources = λ a b. true;
  fault = fault;
  is_noop = λ c. false;
  check_core_record = λ c. ok tt;
  check_resources = λ r. ok tt;
  scenes_of = λ r. [];
  candidate_config = λ r. test_config;
  before_config = λ r. test_config;
  check_telegram = λ i c st t. ok tt;
  check_core = λ i c p. ok tt;
  capture = λ i a b st st1 s t. ok tt;
  validate_config = λ c. ok tt;
  owned_scenes = λ i. ok [];
  find_dev_user = λ i c. ok "user";
  plan_telegram = λ i c st st1. ok tt;
  plan_core = λ i c st. ok (some tt);
  had_core = λ c. false;
  apply_core = λ i c p x. (1, returned tt);
  apply_telegram = λ i c st t x. (1, returned st);
  restore_telegram = λ i c st t x. (0, returned st);
  apply_scene = λ i c st scene x. (1, returned st);
  restore_scene = λ i c st scene x. (0, returned st);
  undo_core = λ i c r x. checkpoint (some tt) (some tt) x (undone 0);
  undo_scene = λ i r scene x. undone 0;
}

abbrev evidence_at : ℕ → Evidence
evidence_at g = evidence_of (digest_at (text_at g))

abbrev test_plan : MutationPlan Answer Answer Answer
test_plan = record {
  receipt = record {
    version = pos 1;
    phase = applying;
    installation = expected_installation test_config;
    before = base;
    candidate = at_generation 2;
    before_main = evidence_at 1;
    before_backup = evidence_at 1;
    candidate_digest = digest_at (text_at 2);
    compensation = none;
    core = some tt;
    resources = some tt;
    steps = step_of "core" ∷ [];
  };
  before_app = test_config;
  candidate_app = test_config;
  telegram = none;
  execution = at_generation 2;
}

abbrev area_at_generation : ℕ → Area
area_at_generation g = record { file = bytes (text_at g); claimed = absent }

abbrev start : Machine ℕ (TransitionRecord Answer Answer)
start = record {
  main = area_at_generation 1;
  backup = area_at_generation 1;
  journal = no_record;
  world = λ n. 0;
  clock = 0;
}

abbrev no_fault : ℕ → Fault
no_fault i = fine

-- The process stops at one effect.
abbrev stop_at : ℕ → Stage → ℕ → Fault
stop_at n s i = if eqb i n then stops s else fine

-- A commit without faults goes through.
commits :
    (commit_plan (test_host no_fault) test_config test_plan start).1
    ≡ returned (at_generation 2, test_config)
unfolding expected_installation same_installation followed attempt observe change same_evidence
    allows swapped put_back retired area_at with_area file_evidence store_evidence encoded_store
    check_unchanged check_committed_file check_committed swap_where swap write_store_cas settle_file
    settle_claimed settle compensation_evidence settle_all is_hex_text check_evidence check_phase
    encodes check_compensation check_core_step check_step_name check_steps check_plan
    validate_transition recorded write_transition parsed decoded_record read_transition removed
    remove_transition with_slot check_before_compensation highest_generation reserved write_unless
    check_file write_compensation finish_files finish_compensation run_undo compensating_app
    restore_steps compensate finalize recover_record recover_read recover confirm or_confirm
    save_planned check_telegram_plan check_plan_resources validate_mutation execute_step execute_on
    undo_on is_enabled run_steps settle_commit commit_store commit_plan decode_store
    validate_store_semantics validate_runtime runtime_config runtime_configs_equal bool_eqb
    highest_store_generation trim_space contains every_rune safe_systemd_target_name apply_to
    has_enabled_scene validate_user_name texts_equal lookup
commits = refl

abbrev texts_at : List ℕ → ℕ → Bool
texts_at (b ∷ g ∷ []) n = eqb g n
texts_at _ n = false

abbrev up_to : ℕ → List ℕ
up_to zero = []
up_to (suc n) = n ∷ up_to n

-- The transaction took place or it did not, and nothing is left of it.
is_settled : Machine ℕ (TransitionRecord Answer Answer) × Ending Bool → Bool
is_settled (m, returned found) = elim m.journal [
  | no_record ↦ elim m.main.file [
    | bytes text ↦
        (texts_at text 2 && eqb (m.world "core") 1)
        || (not (texts_at text 2) && eqb (m.world "core") 0)
    | _ ↦ false
  ]
  | _ ↦ false
]
is_settled (m, _) = false

-- A commit that stops at one effect, and a recovery behind it.
stopped_and_recovered : ℕ → Stage → Bool
unfolding expected_installation same_installation followed attempt observe change same_evidence
    allows swapped put_back retired area_at with_area file_evidence store_evidence encoded_store
    check_unchanged check_committed_file check_committed swap_where swap write_store_cas settle_file
    settle_claimed settle compensation_evidence settle_all is_hex_text check_evidence check_phase
    encodes check_compensation check_core_step check_step_name check_steps check_plan
    validate_transition recorded write_transition parsed decoded_record read_transition removed
    remove_transition with_slot check_before_compensation highest_generation reserved write_unless
    check_file write_compensation finish_files finish_compensation run_undo compensating_app
    restore_steps compensate finalize recover_record recover_read recover confirm or_confirm
    save_planned check_telegram_plan check_plan_resources validate_mutation execute_step execute_on
    undo_on is_enabled run_steps settle_commit commit_store commit_plan decode_store
    validate_store_semantics validate_runtime runtime_config runtime_configs_equal bool_eqb
    highest_store_generation trim_space contains every_rune safe_systemd_target_name apply_to
    has_enabled_scene validate_user_name texts_equal lookup is_settled
stopped_and_recovered n s =
    let host = test_host (stop_at n s) in
    is_settled (recover host test_config (commit_plan host test_config test_plan start).0)

-- Wherever the process stops, of the 28 effects of the commit, one recovery is enough.
recovers_everywhere :
    all_of
      (λ n.
        stopped_and_recovered n untouched
        && stopped_and_recovered n aside
        && stopped_and_recovered n linked
        && stopped_and_recovered n complete)
      (up_to 28)
    ≡ true
unfolding stopped_and_recovered
recovers_everywhere = refl

abbrev forget_default : Store → Result Store
forget_default st = ok (record st { default_node_id = "" })

-- A mutation that plans for itself goes through.
mutates :
    (commit_store_mutation
      (test_host no_fault)
      (λ a b. a)
      test_config
      base
      forget_default
      sync_all
      start).1
    ≡ returned (at_generation 2, test_config)
unfolding expected_installation same_installation followed attempt observe change same_evidence
    allows swapped put_back retired area_at with_area file_evidence store_evidence encoded_store
    check_unchanged check_committed_file check_committed swap_where swap write_store_cas settle_file
    settle_claimed settle compensation_evidence settle_all is_hex_text check_evidence check_phase
    encodes check_compensation check_core_step check_step_name check_steps check_plan
    validate_transition recorded write_transition parsed decoded_record read_transition removed
    remove_transition with_slot check_before_compensation highest_generation reserved write_unless
    check_file write_compensation finish_files finish_compensation run_undo compensating_app
    restore_steps compensate finalize recover_record recover_read recover confirm or_confirm
    save_planned check_telegram_plan check_plan_resources validate_mutation execute_step execute_on
    undo_on is_enabled run_steps settle_commit commit_store commit_plan decode_store
    validate_store_semantics validate_runtime runtime_config runtime_configs_equal bool_eqb
    highest_store_generation trim_space contains every_rune safe_systemd_target_name apply_to
    has_enabled_scene validate_user_name texts_equal lookup commit_store_mutation has_transition
    is_pending plan_mutation plan_runtime validate_before read_before read_either observed_store
    bytes_equal next_generation with_dev_user planned_telegram scenes_in_plan scoped_scene
    runtime_scene_changed planned_steps core_step had_core_of runs_core http_addr global_socks_addr
mutates = refl

-- A mutation without a synchronisation goes through.
metadata_mutates :
    (commit_store_mutation
      (test_host no_fault)
      (λ a b. a)
      test_config
      base
      forget_default
      sync_none
      start).1
    ≡ returned (at_generation 2, test_config)
unfolding expected_installation same_installation followed attempt observe change same_evidence
    allows swapped put_back retired area_at with_area file_evidence store_evidence encoded_store
    check_unchanged check_committed_file check_committed swap_where swap write_store_cas settle_file
    settle_claimed settle compensation_evidence settle_all is_hex_text check_evidence check_phase
    encodes check_compensation check_core_step check_step_name check_steps check_plan
    validate_transition recorded write_transition parsed decoded_record read_transition removed
    remove_transition with_slot check_before_compensation highest_generation reserved write_unless
    check_file write_compensation finish_files finish_compensation run_undo compensating_app
    restore_steps compensate finalize recover_record recover_read recover confirm or_confirm
    save_planned check_telegram_plan check_plan_resources validate_mutation execute_step execute_on
    undo_on is_enabled run_steps settle_commit commit_store commit_plan decode_store
    validate_store_semantics validate_runtime runtime_config runtime_configs_equal bool_eqb
    highest_store_generation trim_space contains every_rune safe_systemd_target_name apply_to
    has_enabled_scene validate_user_name texts_equal lookup commit_store_mutation has_transition
    is_pending plan_mutation plan_runtime plan_metadata validate_before read_before read_either
    observed_store bytes_equal next_generation with_dev_user planned_telegram scenes_in_plan
    scoped_scene runtime_scene_changed planned_steps core_step had_core_of runs_core http_addr
    global_socks_addr
metadata_mutates = refl

-- One that stops behind the new main file.
abbrev stopping : Host Answer Answer Answer ℕ (TransitionRecord Answer Answer)
stopping = test_host (stop_at 22 linked)

abbrev stopped_machine : Machine ℕ (TransitionRecord Answer Answer)
stopped_machine =
    (commit_store_mutation stopping (λ a b. a) test_config base forget_default sync_none start).0

stopped_there :
    (commit_store_mutation stopping (λ a b. a) test_config base forget_default sync_none start).1
    ≡ stopped
unfolding expected_installation same_installation followed attempt observe change same_evidence
    allows swapped put_back retired area_at with_area file_evidence store_evidence encoded_store
    check_unchanged check_committed_file check_committed swap_where swap write_store_cas settle_file
    settle_claimed settle compensation_evidence settle_all is_hex_text check_evidence check_phase
    encodes check_compensation check_core_step check_step_name check_steps check_plan
    validate_transition recorded write_transition parsed decoded_record read_transition removed
    remove_transition with_slot check_before_compensation highest_generation reserved write_unless
    check_file write_compensation finish_files finish_compensation run_undo compensating_app
    restore_steps compensate finalize recover_record recover_read recover confirm or_confirm
    save_planned check_telegram_plan check_plan_resources validate_mutation execute_step execute_on
    undo_on is_enabled run_steps settle_commit commit_store commit_plan decode_store
    validate_store_semantics validate_runtime runtime_config runtime_configs_equal bool_eqb
    highest_store_generation trim_space contains every_rune safe_systemd_target_name apply_to
    has_enabled_scene validate_user_name texts_equal lookup commit_store_mutation has_transition
    is_pending plan_mutation plan_runtime plan_metadata validate_before read_before read_either
    observed_store bytes_equal next_generation with_dev_user planned_telegram scenes_in_plan
    scoped_scene runtime_scene_changed planned_steps core_step had_core_of runs_core http_addr
    global_socks_addr
stopped_there = refl

gone_again : (recover stopping test_config stopped_machine).0.journal ≡ no_record
unfolding expected_installation same_installation followed attempt observe change same_evidence
    allows swapped put_back retired area_at with_area file_evidence store_evidence encoded_store
    check_unchanged check_committed_file check_committed swap_where swap write_store_cas settle_file
    settle_claimed settle compensation_evidence settle_all is_hex_text check_evidence check_phase
    encodes check_compensation check_core_step check_step_name check_steps check_plan
    validate_transition recorded write_transition parsed decoded_record read_transition removed
    remove_transition with_slot check_before_compensation highest_generation reserved write_unless
    check_file write_compensation finish_files finish_compensation run_undo compensating_app
    restore_steps compensate finalize recover_record recover_read recover confirm or_confirm
    save_planned check_telegram_plan check_plan_resources validate_mutation execute_step execute_on
    undo_on is_enabled run_steps settle_commit commit_store commit_plan decode_store
    validate_store_semantics validate_runtime runtime_config runtime_configs_equal bool_eqb
    highest_store_generation trim_space contains every_rune safe_systemd_target_name apply_to
    has_enabled_scene validate_user_name texts_equal lookup commit_store_mutation has_transition
    is_pending plan_mutation plan_runtime plan_metadata validate_before read_before read_either
    observed_store bytes_equal next_generation with_dev_user planned_telegram scenes_in_plan
    scoped_scene runtime_scene_changed planned_steps core_step had_core_of runs_core http_addr
    global_socks_addr
gone_again = refl

reads_back : (r : TransitionRecord Answer Answer) → some r ≡ some r
reads_back r = refl

abbrev test_origin : Origin Answer Answer ℕ
test_origin = metadata_origin base forget_default (evidence_at 1) (evidence_at 1) start.world

start-IsIdle :
    IsIdle stopping reads_back base forget_default (evidence_at 1) (evidence_at 1) start.world start
start-IsIdle = (
  refl,
  (refl, allows_first (evidence_at 1) []),
  (refl, allows_first (evidence_at 1) []),
  λ n. refl,
)

commit_metadata-IsSound_example :
    Ends
      (λ x m'. (m'.journal ≡ no_record) × IsDone stopping test_origin m'.main m'.backup m'.world)
      (IsSound stopping test_origin)
      (IsSound stopping test_origin)
      (commit_store_mutation stopping (λ a b. a) test_config base forget_default sync_none start)
commit_metadata-IsSound_example =
    commit_metadata-IsSound stopping reads_back base forget_default (evidence_at 1) (evidence_at 1)
      start.world (λ a b. a) test_config start start-IsIdle

recover_metadata-IsSound_example :
    Ends
      (IsRecovered stopping test_origin (
        metadata-Laws base forget_default
          (evidence_at 1)
          (evidence_at 1)
          start.world
          stopping
          reads_back))
      (IsSound stopping test_origin)
      (IsSound stopping test_origin)
      (recover stopping test_config stopped_machine)
recover_metadata-IsSound_example =
    recover_metadata-IsSound stopping reads_back base forget_default (evidence_at 1) (evidence_at 1)
      start.world test_config stopped_machine
      (Reached-IsSound stopping reads_back base forget_default (evidence_at 1) (evidence_at 1)
        start.world (λ a b. a) test_config start start-IsIdle stopped_machine behind_commit)

Reached-IsAtomic_example :
    IsAtomic stopping test_origin
      (recover stopping test_config stopped_machine).0.main
      (recover stopping test_config stopped_machine).0.backup
      (recover stopping test_config stopped_machine).0.world
Reached-IsAtomic_example =
    Reached-IsAtomic stopping reads_back base forget_default (evidence_at 1) (evidence_at 1)
      start.world (λ a b. a) test_config start start-IsIdle
      (recover stopping test_config stopped_machine).0 (behind_recovery behind_commit) gone_again

abbrev metadata_record : TransitionRecord Answer Answer
metadata_record = record test_plan.receipt { core = none; resources = none; steps = [] }

later : 1 < 2
later = omega arith

candidate_text : encoded_store stopping (at_generation 2) ≡ ok (text_at 2)
unfolding encoded_store validate_store_semantics runtime_config validate_runtime trim_space apply_to
    validate_user_name contains safe_systemd_target_name has_enabled_scene lookup
candidate_text = refl

metadata-IsReady : IsReady stopping test_origin metadata_record start
metadata-IsReady = (
  inl (
    λ n. refl,
    inl ((refl, allows_first (evidence_at 1) []), (refl, allows_first (evidence_at 1) [])),
  ),
  record {
    same_main = refl;
    same_backup = refl;
    same_before = refl;
    prior = tt;
    new_digest =
        (at_generation 2, (at_generation 1, refl, 2, later, refl), text_at 2, candidate_text, refl);
    own_steps = refl;
  },
  record {
    main_held = allows_first (evidence_at 1) _;
    backup_held = allows_first (evidence_at 1) _;
    slots = λ n. (refl, λ e. refl);
  },
)

compensate_metadata-IsSound_example :
    Ends
      (λ u m'.
        (m'.journal ≡ no_record) × IsRestored stopping test_origin m'.main m'.backup m'.world)
      (IsSound stopping test_origin)
      (IsSound stopping test_origin)
      (compensate stopping test_config metadata_record start)
compensate_metadata-IsSound_example =
    compensate_metadata-IsSound stopping reads_back base forget_default (evidence_at 1)
      (evidence_at 1) start.world test_config metadata_record start metadata-IsReady

plan_mutation_room_example :
    Ends
      (λ p m'.
        HasFiles stopping (bytes (text_at 1)) (bytes (text_at 1)) m'
        × HasRoom stopping (bytes (text_at 1)) (bytes (text_at 1)) base p)
      (HasFiles stopping (bytes (text_at 1)) (bytes (text_at 1)))
      (HasFiles stopping (bytes (text_at 1)) (bytes (text_at 1)))
      (plan_mutation stopping (λ a b. a) test_config base base sync_all start)
plan_mutation_room_example =
    plan_mutation_room stopping (bytes (text_at 1)) (bytes (text_at 1)) (λ a b. a) test_config base
      base sync_all start (refl, refl)

abbrev pending_machine : Machine ℕ (TransitionRecord Answer Answer)
pending_machine = record start { journal = record_text test_plan.receipt }

mutation_refused_example :
    Ends
      (λ x m'. ⊥)
      (IsUntouched stopping pending_machine)
      (IsUntouched stopping pending_machine)
      (commit_store_mutation stopping
        (λ a b. a)
        test_config
        base
        forget_default
        sync_none
        pending_machine)
mutation_refused_example =
    mutation_refused stopping (λ a b. a) test_config base forget_default sync_none pending_machine
      test_plan.receipt refl

abbrev committing_record : TransitionRecord Answer Answer
committing_record = record test_plan.receipt { phase = committing }

record_valid : validate_transition stopping test_config committing_record ≡ ok tt
unfolding expected_installation same_installation followed attempt observe change same_evidence
    allows swapped put_back retired area_at with_area file_evidence store_evidence encoded_store
    check_unchanged check_committed_file check_committed swap_where swap write_store_cas settle_file
    settle_claimed settle compensation_evidence settle_all is_hex_text check_evidence check_phase
    encodes check_compensation check_core_step check_step_name check_steps check_plan
    validate_transition recorded write_transition parsed decoded_record read_transition removed
    remove_transition with_slot check_before_compensation highest_generation reserved write_unless
    check_file write_compensation finish_files finish_compensation run_undo compensating_app
    restore_steps compensate finalize recover_record recover_read recover confirm or_confirm
    save_planned check_telegram_plan check_plan_resources validate_mutation execute_step execute_on
    undo_on is_enabled run_steps settle_commit commit_store commit_plan decode_store
    validate_store_semantics validate_runtime runtime_config runtime_configs_equal bool_eqb
    highest_store_generation trim_space contains every_rune safe_systemd_target_name apply_to
    has_enabled_scene validate_user_name texts_equal lookup
record_valid = refl

validate_transition_sound_example :
    ((text : List ℕ) × (encoded_store stopping committing_record.candidate ≡ ok text)
      × (stopping.content_digest text ≡ committing_record.candidate_digest))
    × (1 < 2)
    × IsLater stopping committing_record none
    × AreNew stopping [] committing_record.steps
    × All (λ s. s.restored ≡ true → s.started ≡ true) committing_record.steps
validate_transition_sound_example =
    validate_transition_sound stopping test_config committing_record record_valid

-- Both files are the candidate, the old main file is still aside.
abbrev half_way : Machine ℕ (TransitionRecord Answer Answer)
half_way = record {
  main = record { file = bytes (text_at 2); claimed = bytes (text_at 1) };
  backup = area_at_generation 2;
  journal = record_text committing_record;
  world = λ n. 1;
  clock = 22;
}

record_reads :
    decoded_record (test_host no_fault) test_config half_way.journal ≡ ok committing_record
unfolding expected_installation same_installation followed attempt observe change same_evidence
    allows swapped put_back retired area_at with_area file_evidence store_evidence encoded_store
    check_unchanged check_committed_file check_committed swap_where swap write_store_cas settle_file
    settle_claimed settle compensation_evidence settle_all is_hex_text check_evidence check_phase
    encodes check_compensation check_core_step check_step_name check_steps check_plan
    validate_transition recorded write_transition parsed decoded_record read_transition removed
    remove_transition with_slot check_before_compensation highest_generation reserved write_unless
    check_file write_compensation finish_files finish_compensation run_undo compensating_app
    restore_steps compensate finalize recover_record recover_read recover confirm or_confirm
    save_planned check_telegram_plan check_plan_resources validate_mutation execute_step execute_on
    undo_on is_enabled run_steps settle_commit commit_store commit_plan decode_store
    validate_store_semantics validate_runtime runtime_config runtime_configs_equal bool_eqb
    highest_store_generation trim_space contains every_rune safe_systemd_target_name apply_to
    has_enabled_scene validate_user_name texts_equal lookup
record_reads = refl

recover_completes_example :
    (m' : Machine ℕ (TransitionRecord Answer Answer)) × (recover
        (test_host no_fault)
        test_config
        half_way
      ≡ (m', returned true))
    × IsClosed (test_host no_fault) (text_at 2) m'
recover_completes_example =
    recover_completes (test_host no_fault) test_config committing_record (text_at 2) half_way
      record_reads refl refl (λ x e. refl) refl (λ i le. refl) refl
      (allows_first (evidence_at 1) (evidence_at 2 ∷ [])) refl
