-- ===== src/Transition/Commit.antt =====
-- `commitPlannedStoreMutation` with `validateRuntimeMutation` and `savePlannedRuntimeStore`
-- (internal/manager/runtime_transition.go, runtime_transition_store.go). The store and the
-- configuration of the caller come back with a success; a mutation is a function that may refuse.
use proxyscene.Common.{
  Bool, Error, List, Option, Result, String, [], bad_candidate_digest, eqb, false,
  identity_mismatch, if◌then◌else◌, no_generation, none, not, ok, reject_if, resources_changed,
  restart_unsettled, some, store_not_committed, true, ℕ, ◌%◌, ◌+◌, ◌==◌, ◌^◌, ◌∷◌,
}
use proxyscene.Config.{Config, scene_telegram}
use proxyscene.Store.{Store, is_enabled}
use proxyscene.Store.Persist.{max_generation}
use proxyscene.Transition.{
  Action, Ending, Evidence, Host, Machine, MutationPlan, Step, TransitionRecord, attempt, committed,
  committing, give, observe, raised, returned, stopped, tick, ◌▷◌,
}
use proxyscene.Transition.Compensate.{compensate, finalize, rejoin, with_slot}
use proxyscene.Transition.Files.{
  backup_path, check_committed, check_unchanged, encoded_store, evidence_of, main_path,
  same_evidence, store_evidence, write_store_cas,
}
use proxyscene.Transition.Receipt.{remove_transition, write_transition}

-- `errors.Is(err, errSystemdRestartUnsettled)`
abbrev pub is_unsettled : Error → Bool
is_unsettled restart_unsettled = true
is_unsettled _ = false

module _ {X J : Type 0} where
  -- The error of the call after the compensation, which is the first one with or without another.
  abbrev pub compensated {ℓ} :
      {A : Type ℓ} → Error → Machine X J × Ending (Unit {0}) → Machine X J × Ending A
  compensated e (m, stopped) = (m, stopped)
  compensated e (m, _) = (m, raised e)

  -- `return errors.Join(err, a.compensateRuntimeTransition(r))`
  abbrev pub or_compensate {ℓ} :
      {A : Type ℓ} → Action X J (Unit {0}) → Machine X J × Ending A → Machine X J × Ending A
  or_compensate undo (m, returned a) = (m, returned a)
  or_compensate undo (m, raised e) = compensated e (undo m)
  or_compensate undo (m, stopped) = (m, stopped)

  -- The same but for a restart that has not settled: its plan is kept.
  abbrev pub or_compensate_settled {ℓ} :
      {A : Type ℓ} → Action X J (Unit {0}) → Machine X J × Ending A → Machine X J × Ending A
  or_compensate_settled undo (m, returned a) = (m, returned a)
  or_compensate_settled undo (m, raised e) =
      let undone = compensated e (undo m) in if is_unsettled e then (m, raised e) else undone
  or_compensate_settled undo (m, stopped) = (m, stopped)

module _ {C R T X J : Type 0} (h : Host C R T X J) where
  -- `storeEvidence` where the outcome of the commit is in doubt
  unfoldable pub confirm :
      Config
      → TransitionRecord C R
      → Error
      → Machine X J × Ending Evidence
      → Machine X J × Ending Store
  confirm app r e (m, returned main) =
      let undone = compensated e (compensate h app r m) in
      if same_evidence main (evidence_of r.candidate_digest) then (m, raised e) else undone
  confirm app r e (m, raised other) = (m, raised e)
  confirm app r e (m, stopped) = (m, stopped)

  -- The commit of the store, or what follows its failure.
  unfoldable pub or_confirm :
      Config → TransitionRecord C R → Machine X J × Ending Store → Machine X J × Ending Store
  or_confirm app r (m, returned st) = (m, returned st)
  or_confirm app r (m, raised e) = confirm app r e (store_evidence h main_path m)
  or_confirm app r (m, stopped) = (m, stopped)

  -- `savePlannedRuntimeStore`
  unfoldable pub save_planned : Store → TransitionRecord C R → Action X J Store
  save_planned st r = attempt (reject_if (eqb st.generation max_generation) no_generation) ▷ λ u.
      let candidate : Store = record st { generation = st.generation + 1 } in
      attempt (encoded_store h candidate) ▷ λ text.
      attempt (reject_if (not (h.content_digest text == r.candidate_digest)) bad_candidate_digest)
      ▷ λ v. check_unchanged h r ▷ λ w. write_store_cas h backup_path r.before_backup text ▷ λ x.
          store_evidence h backup_path ▷ λ backup.
          attempt (
            reject_if (not (same_evidence backup (evidence_of r.candidate_digest)))
              store_not_committed)
          ▷ λ y. write_store_cas h main_path r.before_main text ▷ λ z. give candidate

  unfoldable pub check_telegram_plan : MutationPlan C R T → Option T → ℕ → Result (Unit {0})
  check_telegram_plan p none clock = ok tt
  check_telegram_plan p (some t) clock =
      h.check_telegram clock p.candidate_app p.receipt.candidate t

  unfoldable pub check_plan_resources : MutationPlan C R T → Option R → Action X J (Unit {0})
  check_plan_resources p none = give tt
  check_plan_resources p (some resources) =
      let r = p.receipt in
      observe h (λ m. check_telegram_plan p p.telegram m.clock) ▷ λ u.
      observe h (λ m.
        h.capture m.clock p.before_app p.candidate_app r.before r.candidate (h.scenes_of resources)
          p.telegram)
      ▷ λ seen. attempt (reject_if (not (h.same_resources seen resources)) resources_changed) ▷ λ v.
          observe h (λ m. h.check_core m.clock p.candidate_app r.core) ▷ λ w. check_unchanged h r

  -- `validateRuntimeMutation`
  unfoldable pub validate_mutation : MutationPlan C R T → Action X J (Unit {0})
  validate_mutation p =
      check_unchanged h p.receipt ▷ λ u. check_plan_resources p p.receipt.resources

  abbrev with_store : Store → X × Ending (Unit {0}) → X × Ending Store
  with_store st (x, returned u) = (x, returned st)
  with_store st (x, raised e) = (x, raised e)
  with_store st (x, stopped) = (x, stopped)

  -- `executeRuntimeStep`, on the resource of the step
  unfoldable pub execute_on : ℕ → MutationPlan C R T → String → X → X × Ending Store
  execute_on i p name x =
      let wanted = is_enabled p.receipt.candidate name in
      if name == "core"
      then with_store p.execution (h.apply_core i p.candidate_app p.receipt.core x)
      else if name == scene_telegram
      then if wanted
        then h.apply_telegram i p.candidate_app p.execution p.telegram x
        else h.restore_telegram i p.candidate_app p.execution p.telegram x
      else if wanted
      then h.apply_scene i p.candidate_app p.execution name x
      else h.restore_scene i p.candidate_app p.execution name x

  -- One step.
  unfoldable pub execute_step : MutationPlan C R T → String → Action X J Store
  execute_step p name m =
      let (x, end) = execute_on m.clock p name (m.world name) in (with_slot name x (tick m), end)

  -- The steps that are left, those in front being done: each is recorded as started before it runs.
  unfoldable pub run_steps :
      Config → MutationPlan C R T → List Step → List Step → Action X J (MutationPlan C R T)
  run_steps app p front [] m = (m, returned p)
  run_steps app p front (s ∷ rest) m =
      let begun : Step = record s { started = true } in
      let r = p.receipt in
      let r1 : TransitionRecord C R = record r { steps = rejoin front (begun ∷ rest) } in
      let p1 : MutationPlan C R T = record p { receipt = r1 } in
      ((λ m0. or_compensate (compensate h app r) (check_unchanged h r m0)) ▷ λ u.
      (λ m1. or_compensate (compensate h app r1) (write_transition h app r1 m1)) ▷ λ v.
      (λ m2. or_compensate_settled (compensate h app r1) (execute_step p1 s.name m2)) ▷ λ st.
      run_steps app (record p1 { execution = st }) (begun ∷ front) rest)
        m

  -- Behind the commit of the store.
  unfoldable pub settle_commit :
      MutationPlan C R T → TransitionRecord C R → Store → Action X J (Store × Config)
  settle_commit p r st = check_committed h r ▷ λ u.
      attempt (reject_if (not (eqb st.generation r.candidate.generation)) identity_mismatch) ▷ λ v.
      let r1 : TransitionRecord C R = record r { phase = committed } in
      write_transition h p.candidate_app r1 ▷ λ w. check_committed h r1 ▷ λ x.
      finalize h r1.resources ▷ λ y. remove_transition h ▷ λ z. give (st, p.candidate_app)

  -- Behind the steps: the candidate is fixed and recorded, then the store is committed.
  unfoldable pub commit_store : Config → MutationPlan C R T → Action X J (Store × Config)
  commit_store app p =
      let r = record p.receipt { candidate = p.execution } in
      (λ m0. or_compensate (compensate h app r) (attempt (encoded_store h p.execution) m0))
      ▷ λ text.
          let r1 : TransitionRecord C R = record r {
            candidate_digest = h.content_digest text;
            phase = committing;
          } in
          (λ m1. or_compensate (compensate h app r1) (write_transition h app r1 m1)) ▷ λ u.
          check_unchanged h r1 ▷ λ v.
          let committing_store : Store = record r1.candidate {
            generation = (r1.candidate.generation + max_generation) % 2 ^ 64;
          } in
          (λ m2. or_confirm app r1 (save_planned committing_store r1 m2)) ▷ λ st.
          settle_commit p r1 st

  -- From the plan on.
  unfoldable pub commit_plan : Config → MutationPlan C R T → Action X J (Store × Config)
  commit_plan app p = validate_mutation p ▷ λ u. write_transition h app p.receipt ▷ λ v.
      run_steps app p [] p.receipt.steps ▷ λ p1. commit_store app p1
