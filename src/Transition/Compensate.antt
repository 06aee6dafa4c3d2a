-- ===== src/Transition/Compensate.antt =====
-- The compensation: `compensateRuntimeTransition`, `validateTransitionStoreBeforeCompensation`,
-- `finishRuntimeCompensationStore` and `recoverRuntimeTransition`
-- (internal/manager/runtime_transition.go).
use proxyscene.Common.{
  Bool, Error, List, Option, String, [], changed_after_commit, eqb, false, if◌then◌else◌,
  missing_file, no_generation, none, not, phase_conflict, reject_if, some, store_changed, true, ℕ,
  ◌&&◌, ◌+◌, ◌==◌, ◌||◌, ◌∷◌,
}
use proxyscene.Config.{Config}
use proxyscene.Store.{Store}
use proxyscene.Store.Persist.{highest_store_generation, max_generation}
use proxyscene.Transition.{
  Action, Ending, Evidence, Host, Machine, Phase, Step, TransitionRecord, Undo, attempt, broken,
  checkpoint, committed, committing, compensating, cut_off, give, observe, raised, returned,
  stopped, undone, ◌▷◌,
}
use proxyscene.Transition.Files.{
  StorePath, allows, backup_path, check_committed, compensation_evidence, encoded_store,
  evidence_of, main_path, same_evidence, settle_all, store_evidence, write_store_cas,
}
use proxyscene.Transition.Receipt.{read_transition, remove_transition, write_transition}

-- The steps in front, the last one first, before the steps behind.
abbrev pub rejoin : List Step → List Step → List Step
rejoin [] back = back
rejoin (s ∷ front) back = rejoin front (s ∷ back)

abbrev pub reversed : List Step → List Step → List Step
reversed [] onto = onto
reversed (s ∷ rest) onto = reversed rest (s ∷ onto)

-- `errors.Is(err, os.ErrNotExist)`
abbrev pub is_missing : Error → Bool
is_missing missing_file = true
is_missing _ = false

abbrev pub may_commit : Phase → Bool
may_commit committing = true
may_commit committed = true
may_commit _ = false

abbrev pub is_committed : Phase → Bool
is_committed committed = true
is_committed _ = false

abbrev pub mark_restored : Step → Step
mark_restored s = record s { restored = true }

module _ {X J : Type 0} where
  unfoldable pub with_slot : String → X → Machine X J → Machine X J
  with_slot name x m = record m { world = λ n. if n == name then x else m.world n }

module _ {C R T X J : Type 0} (h : Host C R T X J) where
  -- `validateTransitionStoreBeforeCompensation`
  unfoldable pub check_before_compensation : TransitionRecord C R → Action X J (Unit {0})
  check_before_compensation r = store_evidence h main_path ▷ λ main.
      store_evidence h backup_path ▷ λ backup.
      attempt (compensation_evidence h r.compensation) ▷ λ compensation.
      attempt (reject_if (not (allows (r.before_main ∷ compensation) main)) store_changed) ▷ λ u.
      attempt (
        reject_if
          (not (allows (r.before_backup ∷ evidence_of r.candidate_digest ∷ compensation) backup))
          store_changed)

  -- `highestStoreGeneration`
  unfoldable pub highest_generation : Action X J ℕ
  highest_generation = observe h (λ m.
      highest_store_generation h.checker h.codec
        (record { main = m.main.file; backup = m.backup.file }))

  -- The compensation that the record has, or a new one, which is recorded before it is used.
  unfoldable pub reserved : Config → TransitionRecord C R → Option Store → Action X J Store
  reserved app r (some st) = give st
  reserved app r none = highest_generation ▷ λ highest.
      attempt (reject_if (eqb highest max_generation) no_generation) ▷ λ u.
      let st : Store = record r.before { generation = highest + 1 } in
      write_transition h app (record r { compensation = some st }) ▷ λ v. give st

  unfoldable pub write_unless : Bool → StorePath → Evidence → List ℕ → Action X J (Unit {0})
  write_unless true path seen text = give tt
  write_unless false path seen text = write_store_cas h path seen text

  unfoldable pub check_file : StorePath → Evidence → Action X J (Unit {0})
  check_file path expected = store_evidence h path ▷ λ seen.
      attempt (reject_if (not (same_evidence seen expected)) store_changed)

  -- The compensation in both files, the backup first.
  unfoldable pub write_compensation :
      TransitionRecord C R → Evidence → Evidence → Store → Action X J (Unit {0})
  write_compensation r main backup st = attempt (encoded_store h st) ▷ λ text.
      let expected : Evidence = evidence_of (h.content_digest text) in
      write_unless (same_evidence backup expected) backup_path backup text ▷ λ u.
      check_before_compensation (record r { compensation = some st }) ▷ λ v.
      write_unless (same_evidence main expected) main_path main text ▷ λ w.
      check_file main_path expected ▷ λ x.
      check_file backup_path expected ▷ λ y. remove_transition h

  -- Nothing to write, or the compensation.
  unfoldable pub finish_files :
      Bool → Config → TransitionRecord C R → Evidence → Evidence → Action X J (Unit {0})
  finish_files true app r main backup = remove_transition h
  finish_files false app r main backup =
      reserved app r r.compensation ▷ λ st. write_compensation r main backup st

  -- `finishRuntimeCompensationStore`
  unfoldable pub finish_compensation : Config → TransitionRecord C R → Action X J (Unit {0})
  finish_compensation app r = check_before_compensation r ▷ λ u.
      store_evidence h main_path ▷ λ main. store_evidence h backup_path ▷ λ backup.
      finish_files (same_evidence main r.before_main && same_evidence backup r.before_backup) app r
        main backup

  -- The compensation of one step, with the checkpoints of its progress; the record comes back.
  unfoldable pub run_undo :
      Config → String → TransitionRecord C R → Undo C R X → Action X J (TransitionRecord C R)
  run_undo app name r (checkpoint core resources x rest) m =
      let next : TransitionRecord C R = record r { core = core; resources = resources } in
      (write_transition h app next ▷ λ u. run_undo app name next rest) (with_slot name x m)
  run_undo app name r (undone x) m = (with_slot name x m, returned r)
  run_undo app name r (broken x e) m = (with_slot name x m, raised e)
  run_undo app name r (cut_off x) m = (with_slot name x m, stopped)

  -- The compensation of one step, on its resource.
  unfoldable pub undo_on : ℕ → Config → TransitionRecord C R → String → X → Undo C R X
  undo_on i runner r name x =
      if name == "core" then h.undo_core i runner r x else h.undo_scene i r name x

  -- The application that compensates.
  unfoldable pub compensating_app : Config → Option R → Config
  compensating_app app none = app
  compensating_app app (some resources) = h.candidate_config resources

  -- The steps from the last to the first: those that started and are not restored yet.
  unfoldable pub restore_steps :
      Config
      → Config
      → TransitionRecord C R
      → List Step
      → List Step
      → Action X J (TransitionRecord C R)
  restore_steps app runner r [] back m = (m, returned r)
  restore_steps app runner r (s ∷ front) back m =
      let skip = restore_steps app runner r front (s ∷ back) m in
      let next =
        (run_undo app s.name r (undo_on m.clock runner r s.name (m.world s.name)) ▷ λ r1.
        let r2 : TransitionRecord C R = record r1 {
          steps = rejoin front (mark_restored s ∷ back);
        } in
        write_transition h app r2 ▷ λ u. restore_steps app runner r2 front (mark_restored s ∷ back))
          m in
      if not s.started || s.restored then skip else next

  -- `compensateRuntimeTransition`
  unfoldable pub compensate : Config → TransitionRecord C R → Action X J (Unit {0})
  compensate app r = settle_all h r ▷ λ u. check_before_compensation r ▷ λ v.
      let r1 : TransitionRecord C R = record r { phase = compensating } in
      write_transition h app r1 ▷ λ w.
      restore_steps app (compensating_app app r1.resources) r1 (reversed r1.steps []) [] ▷ λ r2.
      finish_compensation app r2

  -- `finalizeRuntimeTransitionResources`
  unfoldable pub finalize : Option R → Action X J (Unit {0})
  finalize none = give tt
  finalize (some resources) = attempt (h.check_resources resources)

  unfoldable pub recover_record : Config → TransitionRecord C R → Evidence → Action X J (Unit {0})
  recover_record app r main =
      if same_evidence main (evidence_of r.candidate_digest)
      then (attempt (reject_if (not (may_commit r.phase)) phase_conflict) ▷ λ u.
          check_committed h r ▷ λ v. finalize r.resources ▷ λ w. remove_transition h)
      else (attempt (reject_if (is_committed r.phase) changed_after_commit) ▷ λ u. compensate app r)

  -- The rest of `recoverRuntimeTransition`, with what the read of the record gave.
  unfoldable pub recover_read :
      Config → Machine X J × Ending (TransitionRecord C R) → Machine X J × Ending Bool
  recover_read app (m, raised e) = (m, if is_missing e then returned false else raised e)
  recover_read app (m, stopped) = (m, stopped)
  recover_read app (m, returned r) =
      (settle_all h r ▷ λ u.
      store_evidence h main_path ▷ λ main. recover_record app r main ▷ λ v. give true)
        m

  -- `recoverRuntimeTransition`: whether there was a record.
  unfoldable pub recover : Config → Action X J Bool
  recover app m = recover_read app (read_transition h app m)
