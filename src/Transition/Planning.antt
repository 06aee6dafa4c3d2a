-- ===== src/Transition/Planning.antt =====
-- The plan of a transaction: `planMetadataMutation`, `planRuntimeMutation` with the checks of the
-- store before it, and `commitPlannedStoreMutation` around it
-- (internal/manager/runtime_transition.go, runtime_transition_store.go, node.go).
use proxyscene.Common.{
  Bool, List, Option, Result, String, [], bad_json, contains, eqb, err, false, if◌then◌else◌,
  int_eqb, keep_if, leb, length, ltb, map, missing_file, no_generation, none, not, ok,
  pending_transition, pos, reject_if, some, store_changed, texts_equal, true, unknown_history,
  unreadable_file, ℕ, ℤ, ◌&&◌, ◌++◌, ◌+◌, ◌-◌, ◌==◌, ◌||◌, ◌∷◌,
}
use proxyscene.Config.{
  Config, Scene, apply_to, bool_eqb, runtime_config, scene_dev, scene_global, scene_telegram,
}
use proxyscene.Config.Address.{global_socks_addr, http_addr}
use proxyscene.Store.{Store, has_enabled_scene, is_enabled, new_store}
use proxyscene.Store.Persist.{absent, bytes, decode_store, max_generation, unreadable}
use proxyscene.Transition.{
  Action, Evidence, Host, MutationPlan, Step, TransitionRecord, applying, attempt,
  expected_installation, give, observe, ◌▷◌,
}
use proxyscene.Transition.Commit.{commit_plan}
use proxyscene.Transition.Compensate.{highest_generation}
use proxyscene.Transition.Files.{
  StorePath, area_at, backup_path, check_unchanged, encoded_store, main_path, store_evidence,
}
use proxyscene.Transition.Receipt.{has_some, has_transition, validate_transition}

-- `storeRuntimeSyncMode`
pub data SyncMode : Type 0 where
  sync_none sync_xray sync_all sync_global sync_dev sync_telegram : SyncMode

-- `scopedRuntimeScene`
unfoldable pub scoped_scene : SyncMode → Scene
scoped_scene sync_global = scene_global
scoped_scene sync_dev = scene_dev
scoped_scene sync_telegram = scene_telegram
scoped_scene _ = ""

abbrev is_none_mode : SyncMode → Bool
is_none_mode sync_none = true
is_none_mode _ = false

abbrev is_all_mode : SyncMode → Bool
is_all_mode sync_all = true
is_all_mode _ = false

-- `runtimeSceneChanged`
unfoldable pub runtime_scene_changed : (String → ℤ → String) → Config → Config → Scene → Bool
runtime_scene_changed join before candidate scene =
    let http = not (http_addr join before scene == http_addr join candidate scene) in
    if scene == scene_global
    then http || not (global_socks_addr join before == global_socks_addr join candidate)
    else if scene == scene_dev
    then http || not (before.dev_target_user == candidate.dev_target_user)
    else if scene == scene_telegram
    then http
      || not (int_eqb before.tg_socks_port candidate.tg_socks_port)
      || not (bool_eqb before.manage_open_claw_config candidate.manage_open_claw_config)
      || not (texts_equal before.tg_target_services candidate.tg_target_services)
    else false

-- The scenes that a change concerns, of those in the list.
unfoldable pub scenes_in_plan :
    (String → ℤ → String)
    → SyncMode
    → List Scene
    → Config
    → Config
    → Store
    → Store
    → List Scene
    → List Scene
scenes_in_plan join mode owned old next before candidate [] = []
scenes_in_plan join mode owned old next before candidate (scene ∷ rest) =
    let others = scenes_in_plan join mode owned old next before candidate rest in
    let wanted = is_enabled candidate scene in
    let switched = not (bool_eqb (is_enabled before scene) wanted) in
    let requested = scoped_scene mode == scene in
    let has_targets = ltb 0 (length before.telegram_targets) in
    let reconcile =
      is_all_mode mode
      && (wanted || contains owned scene || (scene == scene_telegram && has_targets)) in
    let moved = runtime_scene_changed join old next scene && (wanted || contains owned scene) in
    if switched || requested || reconcile || moved then scene ∷ others else others

abbrev pub step_of : String → Step
step_of name = record { name = name; started = false; restored = false }

unfoldable pub core_step : Bool → List Step
core_step true = step_of "core" ∷ []
core_step false = []

-- The scenes that end, then the core, then the scenes that go on or begin.
unfoldable pub planned_steps : Store → List Scene → Bool → List Step
planned_steps candidate scenes core =
    map step_of (keep_if (λ s. not (is_enabled candidate s)) scenes)
    ++ (core_step core ++ map step_of (keep_if (λ s. is_enabled candidate s) scenes))

-- `bytes.Equal`
unfoldable pub bytes_equal : List ℕ → List ℕ → Bool
bytes_equal [] [] = true
bytes_equal (a ∷ rest) (b ∷ more) = eqb a b && bytes_equal rest more
bytes_equal _ _ = false

module _ {C R T X J : Type 0} (h : Host C R T X J) where
  -- The content of a file that its evidence shows.
  unfoldable pub read_before : StorePath → Evidence → Action X J (Option Store)
  read_before path e =
      if not e.present
      then give none
      else observe h (λ m. elim (area_at path m).file [
        | absent ↦ err missing_file
        | unreadable ↦ err unreadable_file
        | bytes text ↦
            if h.content_digest text == e.digest
            then ok (elim (decode_store h.checker h.codec text) [ ok x ↦ some x.0 | err e ↦ none ])
            else err store_changed
      ])

  -- The backup is read only where the main file gave nothing.
  unfoldable pub read_either : Evidence → Option Store → Action X J (Option Store)
  read_either backup (some st) = give (some st)
  read_either backup none = read_before backup_path backup

  unfoldable pub observed_store : Bool → Option Store → Result Store
  observed_store there (some st) = ok st
  observed_store true none = err bad_json
  observed_store false none = ok new_store

  -- `validateRuntimeStoreBefore`; equal bytes are an equal list.
  unfoldable pub validate_before : Store → Evidence → Evidence → Action X J (Unit {0})
  validate_before before main backup = read_before main_path main ▷ λ first.
      read_either backup first ▷ λ found.
      attempt (observed_store (main.present || backup.present) found) ▷ λ st.
      attempt (encoded_store h st) ▷ λ actual. attempt (encoded_store h before) ▷ λ expected.
      attempt (reject_if (not (bytes_equal actual expected)) store_changed)

  unfoldable pub next_generation : ℕ → Store → Result ℕ
  next_generation highest before =
      let g = if ltb highest before.generation then before.generation else highest in
      if leb (max_generation - 1) g then err no_generation else ok (g + 1)

  -- `planMetadataMutation`
  unfoldable pub plan_metadata : Config → Store → Store → Action X J (MutationPlan C R T)
  plan_metadata app before wanted = store_evidence h main_path ▷ λ main.
      store_evidence h backup_path ▷ λ backup. validate_before before main backup ▷ λ u.
      highest_generation h ▷ λ highest. attempt (next_generation highest before) ▷ λ generation.
      let candidate : Store = record wanted {
        generation = generation;
        stored_config = before.stored_config;
      } in
      attempt (encoded_store h candidate) ▷ λ text.
      let r : TransitionRecord C R = record {
        version = pos 1;
        phase = applying;
        installation = expected_installation app;
        before = before;
        candidate = candidate;
        before_main = main;
        before_backup = backup;
        candidate_digest = h.content_digest text;
        compensation = none;
        core = none;
        resources = none;
        steps = [];
      } in
      attempt (validate_transition h app r) ▷ λ v. give (record {
        receipt = r;
        before_app = app;
        candidate_app = app;
        telegram = none;
        execution = candidate;
      })

  -- A development proxy without a user gets one.
  unfoldable pub with_dev_user : Config → Bool → Action X J Config
  with_dev_user next true = observe h (λ m. h.find_dev_user m.clock next) ▷ λ user.
      give (record next { dev_target_user = user })
  with_dev_user next false = give next

  unfoldable pub planned_telegram : Config → Store → Store → Bool → Action X J (Option T)
  planned_telegram next before candidate true =
      observe h (λ m. h.plan_telegram m.clock next before candidate) ▷ λ t. give (some t)
  planned_telegram next before candidate false = give none

  unfoldable pub had_core_of : Option C → Bool
  had_core_of none = false
  had_core_of (some c) = h.had_core c

  unfoldable pub runs_core : Option C → Bool
  runs_core none = false
  runs_core (some c) = not (h.is_noop c)

  abbrev all_scenes : List Scene
  all_scenes = scene_global ∷ scene_dev ∷ scene_telegram ∷ []

  -- `planRuntimeMutation`
  unfoldable pub plan_runtime :
      (String → ℤ → String) → Config → Store → Store → SyncMode → Action X J (MutationPlan C R T)
  plan_runtime join app before wanted mode = store_evidence h main_path ▷ λ main.
      store_evidence h backup_path ▷ λ backup. validate_before before main backup ▷ λ u.
      observe h (λ m. h.owned_scenes m.clock) ▷ λ owned.
      let unknown = not (has_some before.stored_config) in
      attempt (
        reject_if
          (unknown
            && (has_enabled_scene before
                || ltb 0 (length before.telegram_targets)
                || contains owned scene_global
                || contains owned scene_dev
                || contains owned scene_telegram))
          unknown_history)
      ▷ λ u1. with_dev_user app (is_enabled wanted scene_dev && app.dev_target_user == "") ▷ λ next.
          attempt (h.validate_config next) ▷ λ u2. highest_generation h ▷ λ highest.
          attempt (next_generation highest before) ▷ λ generation.
          let old = apply_to before.stored_config next in
          let candidate : Store = record wanted {
            generation = generation;
            stored_config = some (runtime_config next);
          } in
          let scenes = scenes_in_plan join mode owned old next before candidate all_scenes in
          attempt (encoded_store h candidate) ▷ λ text.
          planned_telegram next before candidate (contains scenes scene_telegram) ▷ λ telegram.
          observe h (λ m. h.capture m.clock old next before candidate scenes telegram)
          ▷ λ resources. observe h (λ m. h.plan_core m.clock next candidate) ▷ λ core.
              attempt (reject_if (unknown && had_core_of core) unknown_history) ▷ λ u3.
              let r : TransitionRecord C R = record {
                version = pos 1;
                phase = applying;
                installation = expected_installation app;
                before = before;
                candidate = candidate;
                before_main = main;
                before_backup = backup;
                candidate_digest = h.content_digest text;
                compensation = none;
                core = core;
                resources = some resources;
                steps = planned_steps candidate scenes (runs_core core);
              } in
              attempt (validate_transition h app r) ▷ λ u4. check_unchanged h r ▷ λ u5.
              give (record {
                receipt = r;
                before_app = old;
                candidate_app = next;
                telegram = telegram;
                execution = candidate;
              })

  unfoldable pub plan_mutation :
      (String → ℤ → String) → Config → Store → Store → SyncMode → Action X J (MutationPlan C R T)
  plan_mutation join app before candidate sync_none = plan_metadata app before candidate
  plan_mutation join app before candidate mode = plan_runtime join app before candidate mode

  -- `commitPlannedStoreMutation` (`commitStoreMutation` in internal/manager/node.go)
  unfoldable pub commit_store_mutation :
      (String → ℤ → String)
      → Config
      → Store
      → (Store → Result Store)
      → SyncMode
      → Action X J (Store × Config)
  commit_store_mutation join app st mutate mode = has_transition h ▷ λ pending.
      attempt (reject_if pending pending_transition) ▷ λ u. attempt (mutate st) ▷ λ candidate.
      plan_mutation join app st candidate mode ▷ λ p. commit_plan h app p
