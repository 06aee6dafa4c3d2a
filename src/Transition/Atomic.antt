-- ===== src/Transition/Atomic.antt =====
-- The transaction from its plan on: `commitPlannedStoreMutation` behind the planning
-- (internal/manager/runtime_transition.go).
use proxyscene.Common.{Bool, Option, [], false, none, refl, some, true}
use proxyscene.Config.{Config}
use proxyscene.Transition.{
  Ending, Host, Machine, MutationPlan, TransitionRecord, raised, returned, stopped, tick,
}
use proxyscene.Transition.Commit.{check_plan_resources, commit_plan, validate_mutation}
use proxyscene.Transition.Committed.{
  Ends-announce, Ends-commit_store, IsCommitted, IsPlanned, planned-IsSound,
}
use proxyscene.Transition.Outcomes.{
  Ends, Ends-followed, Ends-returned, Ends-weaken, then_attempt, then_observe,
}
use proxyscene.Transition.Recovered.{IsRecovered}
use proxyscene.Transition.Sound.{IsSound, Laws, Origin}
use proxyscene.Transition.Steps.{Ends-run_steps, finished-IsSound}
use proxyscene.Transition.Writes.{Ends-check_unchanged}

module _ {C R T X J : Type 0} (h : Host C R T X J) (o : Origin C R X) (laws : Laws h o) where
  IsPlanned-ticks :
      (r : TransitionRecord C R) (m : Machine X J)
      → IsPlanned h o laws r m
      → IsPlanned h o laws r (tick m)
  IsPlanned-ticks r m p = record {
    nothing_pending = p.nothing_pending;
    main_there = p.main_there;
    backup_there = p.backup_there;
    at_rest = p.at_rest;
    captured = p.captured;
    own = p.own;
    first_phase = p.first_phase;
    fresh = p.fresh;
  }

  Ends-check_plan_resources :
      (p : MutationPlan C R T) (resources : Option R) (m : Machine X J)
      → IsPlanned h o laws p.receipt m
      → Ends
          (λ u m'. IsPlanned h o laws p.receipt m')
          (IsSound h o)
          (IsSound h o)
          (check_plan_resources h p resources m)
  unfolding check_plan_resources
  Ends-check_plan_resources p none m planned = Ends-returned planned
  Ends-check_plan_resources p (some resources) m planned =
      let r = p.receipt in
      let sound = planned-IsSound h o laws r m planned in
      let p1 = IsPlanned-ticks r m planned in
      let p2 = IsPlanned-ticks r (tick m) p1 in
      let p3 = IsPlanned-ticks r (tick (tick m)) p2 in
      then_observe h _ _ m sound sound (λ u e. then_observe h _ _ (tick m) sound sound (λ seen e1.
        then_attempt _ _ (tick (tick m)) sound (λ v e2.
          then_observe h _ _ (tick (tick m)) sound sound (λ w e3.
            Ends-weaken _
              (Ends-check_unchanged h (IsPlanned h o laws r) (IsPlanned-ticks r) r
                (tick (tick (tick m))) p3)
              (λ x m1 q. q) (λ m1 q. planned-IsSound h o laws r m1 q)
              (λ m1 q. planned-IsSound h o laws r m1 q)))))

  Ends-validate_mutation :
      (p : MutationPlan C R T) (m : Machine X J)
      → IsPlanned h o laws p.receipt m
      → Ends
          (λ u m'. IsPlanned h o laws p.receipt m')
          (IsSound h o)
          (IsSound h o)
          (validate_mutation h p m)
  unfolding validate_mutation
  Ends-validate_mutation p m planned =
      let r = p.receipt in
      Ends-followed _ _
        (Ends-weaken _
          (Ends-check_unchanged h (IsPlanned h o laws r) (IsPlanned-ticks r) r m planned)
          (λ x m1 q. q) (λ m1 q. planned-IsSound h o laws r m1 q)
          (λ m1 q. planned-IsSound h o laws r m1 q))
        (λ x m1 q. Ends-check_plan_resources p p.receipt.resources m1 q)

  -- A commit that returns from a plan for its machine has removed the record, with every step of
  -- the plan done and both files its candidate. One that fails or stops, whatever the disk and the
  -- steps do, leaves a machine that satisfies the invariant.
  pub commit_plan-IsSound :
      (app : Config) (p : MutationPlan C R T) (m : Machine X J)
      → IsPlanned h o laws p.receipt m
      → o.candidate p.execution
      → Ends (λ x m'. IsCommitted h o laws m') (IsSound h o) (IsSound h o) (commit_plan h app p m)
  unfolding commit_plan
  commit_plan-IsSound app p m planned next =
      Ends-followed _ _ (Ends-validate_mutation p m planned) (λ u m1 q.
        Ends-followed _ _ (Ends-announce h o laws app p.receipt m1 q) (λ v m2 runs.
          Ends-followed _ _
            (Ends-run_steps h o laws app p [] p.receipt.steps m2 refl q.fresh runs next)
            (λ p1 m3 w. Ends-commit_store h o laws app p1 m3 w.0 w.1)))

  pub any_ending :
      {A : Type 0} {Good : A → Machine X J → Type 0} (x : Machine X J × Ending A)
      → ((a : A) (m : Machine X J) → Good a m → IsSound h o m)
      → Ends Good (IsSound h o) (IsSound h o) x
      → IsSound h o x.0
  any_ending (m, returned a) good e = good a m e.ended
  any_ending (m, raised f) good e = e.ended
  any_ending (m, stopped) good e = e.ended

  pub recovered-IsSound :
      (found : Bool) (m : Machine X J) → IsRecovered h o laws found m → IsSound h o m
  recovered-IsSound true m e = finished-IsSound h o laws m e
  recovered-IsSound false m e = e
