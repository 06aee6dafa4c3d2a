-- ===== src/Transition.antt =====
-- The transaction over the state file and the runtime: the types of
-- internal/manager/runtime_transition.go, the machine that it works on, and the faults that an
-- effect may meet. The plans of the core, of the scenes and of the Telegram targets are parameters,
-- as are their execution and their compensation.
pub mod Files
pub mod Receipt
pub mod Compensate
pub mod Planning
pub mod Commit
pub mod Outcomes
pub mod Sound
pub mod Areas
pub mod Settle
pub mod Stable
pub mod Writes
pub mod Slots
pub mod Restore
pub mod Finish
pub mod Compensated
pub mod Recovered
pub mod Steps
pub mod Stored
pub mod Committed
pub mod Atomic
pub mod Plans
pub mod Planned
pub mod Generations
pub mod Metadata
pub mod Refused
pub mod Checked
pub mod Fine
pub mod Completes
use proxyscene.Common.{
  Bool, Error, List, Option, Result, String, err, int_eqb, io_failed, ok, pos, ℕ, ℤ, ◌&&◌, ◌+◌,
  ◌==◌,
}
use proxyscene.Config.{Config, RuntimeConfig, Scene}
use proxyscene.Store.{Store}
use proxyscene.Store.Persist.{Codec, FileState}
use proxyscene.Store.Validate.{Checker}

-- `runtimeStoreEvidence`
pub record Evidence : Type 0 where
  pub present : Bool
  pub digest : String

-- `runtimeTransitionStep`
pub record Step : Type 0 where
  pub name : String
  pub started : Bool
  pub restored : Bool

-- `runtimeTransitionRecord.Phase`
pub data Phase : Type 0 where
  applying committing compensating committed : Phase
  other_phase : String → Phase

-- `installationOwnership` (internal/manager/ownership.go)
pub record Installation : Type 0 where
  pub version : ℤ
  pub core_dir : String
  pub install_bin : String
  pub systemd_service : String
  pub restore_service : String

-- `expectedInstallationOwnership`
unfoldable pub expected_installation : Config → Installation
expected_installation c = record {
  version = pos 1;
  core_dir = c.core_dir;
  install_bin = c.install_bin;
  systemd_service = c.systemd_service;
  restore_service = c.restore_service;
}

unfoldable pub same_installation : Installation → Installation → Bool
same_installation a b =
    int_eqb a.version b.version
    && a.core_dir == b.core_dir
    && a.install_bin == b.install_bin
    && a.systemd_service == b.systemd_service
    && a.restore_service == b.restore_service

-- `runtimeTransitionRecord`; `C` is the plan of the core and `R` the snapshot of the resources. A
-- record without a store before or behind it does not decode.
pub record TransitionRecord (C R : Type 0) : Type 0 where
  pub version : ℤ
  pub phase : Phase
  pub installation : Installation
  pub before : Store
  pub candidate : Store
  pub before_main : Evidence
  pub before_backup : Evidence
  pub candidate_digest : String
  pub compensation : Option Store
  pub core : Option C
  pub resources : Option R
  pub steps : List Step

-- `runtimeMutationPlan`; `T` is the plan of the Telegram targets.
pub record MutationPlan (C R T : Type 0) : Type 0 where
  pub receipt : TransitionRecord C R
  pub before_app : Config
  pub candidate_app : Config
  pub telegram : Option T
  pub execution : Store

-- A path of the store, and the file that a compare-and-swap moves aside before it writes.
pub record Area : Type 0 where
  pub file : FileState
  pub claimed : FileState

-- The file of the record; its text is of a type `J`.
pub data RecordFile (J : Type 0) : Type 0 where
  no_record unreadable_record : RecordFile J
  record_text : J → RecordFile J

-- What the transaction reads and changes. The journal is the file of the record. Each step of a
-- plan has a resource of its own, of type `X`, and `clock` counts the effects.
pub record Machine (X J : Type 0) : Type 0 where
  pub main : Area
  pub backup : Area
  pub journal : RecordFile J
  pub world : String → X
  pub clock : ℕ

-- How far a change got: not at all, up to the file moved aside, up to the new file, to its end.
pub data Stage : Type 0 where
  untouched aside linked complete : Stage

-- An effect goes well, fails at a stage, or the process stops there.
pub data Fault : Type 0 where
  fine : Fault
  fails stops : Stage → Fault

pub data Ending {ℓ} (A : Type ℓ) : Type ℓ where
  returned : A → Ending A
  raised : Error → Ending A
  stopped : Ending A

-- The compensation of one step: progress that is checkpointed in the record, then its end.
pub data Undo (C R X : Type 0) : Type 0 where
  checkpoint : Option C → Option R → X → Undo C R X → Undo C R X
  undone : X → Undo C R X
  broken : X → Error → Undo C R X
  cut_off : X → Undo C R X

-- What the transaction takes from the rest: Go's packages, the faults of the disk, and the plans of
-- the core, the scenes and the Telegram targets. A function of a number may answer differently at
-- each time.
pub record Host (C R T X J : Type 0) : Type 0 where
  pub checker : Checker
  pub codec : Codec
  -- `contentDigest`
  pub content_digest : List ℕ → String
  -- `json.Marshal` with the line feed, the strict `json.Decoder`, and the number of bytes
  pub write_record : TransitionRecord C R → J
  pub parse_record : J → Option (TransitionRecord C R)
  pub record_size : J → ℕ
  -- `reflect.DeepEqual`
  pub same_store : Store → Store → Bool
  pub same_config : Option RuntimeConfig → Option RuntimeConfig → Bool
  pub same_resources : R → R → Bool
  pub fault : ℕ → Fault
  -- `Noop` of the plan of the core, `validateCorePlanRecord`
  pub is_noop : C → Bool
  pub check_core_record : Option C → Result (Unit {0})
  -- `validateRuntimeResources`, `Scenes`, `CandidateConfig`, `BeforeConfig` of the snapshot
  pub check_resources : R → Result (Unit {0})
  pub scenes_of : R → List Scene
  pub candidate_config : R → Config
  pub before_config : R → Config
  -- `validateTelegramPlan`, `validateCorePlan`, `captureRuntimeResources`
  pub check_telegram : ℕ → Config → Store → T → Result (Unit {0})
  pub check_core : ℕ → Config → Option C → Result (Unit {0})
  pub capture : ℕ → Config → Config → Store → Store → List Scene → Option T → Result R
  -- `runtimeValidateConfig`
  pub validate_config : Config → Result (Unit {0})
  -- `runtimeOwnershipEvidence`, `devTargetUser`, `planTelegramTransition` and `planCoreRuntime`, and
  -- whether a plan of the core found a configuration file or an active service
  pub owned_scenes : ℕ → Result (List Scene)
  pub find_dev_user : ℕ → Config → Result String
  pub plan_telegram : ℕ → Config → Store → Store → Result T
  pub plan_core : ℕ → Config → Store → Result (Option C)
  pub had_core : C → Bool
  -- `runtimeApplyCore`: the resource behind it
  pub apply_core : ℕ → Config → Option C → X → X × Ending (Unit {0})
  -- `applyTelegramPlan`, `restoreTelegramPlan`, `applyScene` and `restoreScene`: the resource behind
  -- the call, and the store that it worked on
  pub apply_telegram : ℕ → Config → Store → Option T → X → X × Ending Store
  pub restore_telegram : ℕ → Config → Store → Option T → X → X × Ending Store
  pub apply_scene : ℕ → Config → Store → Scene → X → X × Ending Store
  pub restore_scene : ℕ → Config → Store → Scene → X → X × Ending Store
  -- `runtimeCompensateCore` and `compensateRuntimeResources` of one scene
  pub undo_core : ℕ → Config → TransitionRecord C R → X → Undo C R X
  pub undo_scene : ℕ → TransitionRecord C R → Scene → X → Undo C R X

-- A call: the machine comes back behind a failure too.
abbrev pub Action {ℓ} : Type 0 → Type 0 → Type ℓ → Type ℓ
Action X J A = Machine X J → Machine X J × Ending A

abbrev pub of_result {ℓ} : {A : Type ℓ} → Result A → Ending A
of_result (ok a) = returned a
of_result (err e) = raised e

module _ {X J : Type 0} where
  abbrev pub give {ℓ} : {A : Type ℓ} → A → Action X J A
  give a m = (m, returned a)

  unfoldable pub followed {ℓ κ} :
      {A : Type ℓ} {B : Type κ}
      → (A → Action X J B)
      → Machine X J × Ending A
      → Machine X J × Ending B
  followed next (m, returned a) = next a m
  followed next (m, raised e) = (m, raised e)
  followed next (m, stopped) = (m, stopped)

  infixr 4 ◌▷◌
  abbrev pub ◌▷◌ {ℓ κ} :
      {A : Type ℓ} {B : Type κ} → Action X J A → (A → Action X J B) → Action X J B
  ◌▷◌ call next m = followed next (call m)

  -- A computation in memory.
  unfoldable pub attempt {ℓ} : {A : Type ℓ} → Result A → Action X J A
  attempt r m = (m, of_result r)

  abbrev pub tick : Machine X J → Machine X J
  tick m = record m { clock = m.clock + 1 }

module _ {C R T X J : Type 0} (h : Host C R T X J) where
  abbrev pub observed {ℓ} : {A : Type ℓ} → Fault → Result A → Ending A
  observed fine r = of_result r
  observed (fails s) r = raised io_failed
  observed (stops s) r = stopped

  -- A read.
  unfoldable pub observe {ℓ} : {A : Type ℓ} → (Machine X J → Result A) → Action X J A
  observe f m = (tick m, observed (h.fault m.clock) (f m))

  abbrev pub changed :
      Fault → (Stage → Machine X J → Machine X J) → Machine X J → Machine X J × Ending (Unit {0})
  changed fine f m = (f complete m, returned tt)
  changed (fails s) f m = (f s m, raised io_failed)
  changed (stops s) f m = (f s m, stopped)

  -- A write; `f` is the machine at each stage.
  unfoldable pub change : (Stage → Machine X J → Machine X J) → Action X J (Unit {0})
  change f m = changed (h.fault m.clock) f (tick m)
