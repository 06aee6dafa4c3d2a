-- ===== src/Transition/Steps.antt =====
-- The steps of `commitPlannedStoreMutation` (internal/manager/runtime_transition.go).
use proxyscene.Common.{
  All, All-map, Bool-cases, Error, List, Option, String, [], ap, arith, contains, eq_iff, false,
  inl, inr, not, refl, subst, sym, true, ◌==◌, ◌||◌, ◌∙◌, ◌∷◌, ◌≡◌,
}
use proxyscene.Config.{Config}
use proxyscene.Store.{Store}
use proxyscene.Transition.{
  Ending, Host, Machine, MutationPlan, Phase, Step, TransitionRecord, applying, raised, returned,
  stopped, tick,
}
use proxyscene.Transition.Commit.{
  compensated, execute_step, is_unsettled, or_compensate, or_compensate_settled, run_steps,
}
use proxyscene.Transition.Compensate.{compensate, rejoin, with_slot}
use proxyscene.Transition.Compensated.{IsUndoneForGood, compensate-IsSound}
use proxyscene.Transition.Outcomes.{
  Ends, Ends-followed, Ends-raised, Ends-returned, Ends-stopped, Ends-weaken,
}
use proxyscene.Transition.Receipt.{write_transition}
use proxyscene.Transition.Recovered.{IsFinished}
use proxyscene.Transition.Restore.{IsLogged-slot, Undoable-open, is_open, logged_undoable}
use proxyscene.Transition.Slots.{
  begun-touched, names-rejoin, running-touched, slot_same, touched-names,
}
use proxyscene.Transition.Sound.{
  AllApplied, HeldArea, IsExecuted, IsLogged, IsOwnRecord, IsReady, IsSound, Laws, Origin, Sound,
  UndoableOf, names_of, touched,
}
use proxyscene.Transition.Writes.{Ends-check_unchanged, Ends-log, logged-IsSound}

-- Steps that are not restored.
abbrev pub AreFresh : List Step → Type 0
AreFresh steps = All (λ s. s.restored ≡ false) steps

pub All-rejoin :
    (P : Step → Type 0) (front back : List Step)
    → All P front
    → All P back
    → All P (rejoin front back)
All-rejoin P [] back p q = q
All-rejoin P (s ∷ front) back p q = All-rejoin P front (s ∷ back) p.1 (p.0, q)

module _ {C R T X J : Type 0} (h : Host C R T X J) (o : Origin C R X) (laws : Laws h o) where
  pub finished-IsSound : (m : Machine X J) → IsFinished h o m → IsSound h o m
  finished-IsSound m (gone, atomic) =
      subst (λ j. Sound h o j m.main m.backup m.world) (sym gone) atomic

  pub Ends-after_compensation :
      {A : Type 0} {Good : A → Machine X J → Type 0} (e : Error)
      (x : Machine X J × Ending (Unit {0}))
      → Ends (λ u m. IsUndoneForGood h o laws m) (IsSound h o) (IsSound h o) x
      → Ends Good (IsSound h o) (IsSound h o) (compensated e x)
  Ends-after_compensation e (m, returned u) y =
      Ends-raised (finished-IsSound m (y.ended.0, inl y.ended.1))
  Ends-after_compensation e (m, raised f) y = Ends-raised y.ended
  Ends-after_compensation e (m, stopped) y = Ends-stopped y.ended

  -- A failure that leaves what a compensation starts from.
  pub Ends-or_compensate :
      {A : Type 0} (Good : A → Machine X J → Type 0) (app : Config) (r : TransitionRecord C R)
      (x : Machine X J × Ending A)
      → Ends Good (IsReady h o r) (IsSound h o) x
      → Ends Good (IsSound h o) (IsSound h o) (or_compensate (compensate h app r) x)
  Ends-or_compensate Good app r (m, returned a) e = Ends-returned e.ended
  Ends-or_compensate Good app r (m, raised f) e =
      Ends-after_compensation f _ (compensate-IsSound h o laws app r m e.ended)
  Ends-or_compensate Good app r (m, stopped) e = Ends-stopped e.ended

  Ends-or_compensate_settled :
      {A : Type 0} (Good : A → Machine X J → Type 0) (app : Config) (r : TransitionRecord C R)
      (x : Machine X J × Ending A)
      → Ends Good (IsReady h o r) (IsSound h o) x
      → Ends Good (IsSound h o) (IsSound h o) (or_compensate_settled (compensate h app r) x)
  Ends-or_compensate_settled Good app r (m, returned a) e = Ends-returned e.ended
  Ends-or_compensate_settled Good app r (m, raised f) e = elim (Bool-cases (is_unsettled f)) [
    | inl kept ↦ rw kept (Ends-raised e.ended.0)
    | inr other ↦
        rw other (Ends-after_compensation f _ (compensate-IsSound h o laws app r m e.ended))
  ]
  Ends-or_compensate_settled Good app r (m, stopped) e = Ends-stopped e.ended

  -- The record is on the disk, the backup is the old one, and the steps in front have succeeded.
  abbrev pub IsRunning : TransitionRecord C R → List Step → Machine X J → Type 0
  IsRunning r front m =
      IsLogged h o r m
      × (r.phase ≡ applying)
      × HeldArea h.content_digest (o.backup_evidence ∷ []) m.backup
      × AllApplied h o r.core r.resources front m.world

  abbrev pub open_of : {phase : Phase} → phase ≡ applying → is_open phase ≡ true
  open_of e = ap is_open e

  applied_slot :
      (core : Option C) (resources : Option R) (m : Machine X J) (name : String) (x : X)
      (front : List Step)
      → contains o.steps name ≡ true
      → o.applied core resources name (o.resource name) x
      → AllApplied h o core resources front m.world
      → AllApplied h o core resources front (with_slot name x m).world
  unfolding with_slot
  applied_slot core resources m name x front own new (old, kept) = (
    All-map _ _ front
        (λ t p. elim (Bool-cases (t.name == name)) [
          | inl e ↦ rw e (
              subst (λ k. o.applied core resources k (o.resource k) x)
                (sym ((eq_iff t.name name).0 e)) new)
          | inr e ↦ rw e p
        ])
        old,
    λ n out. elim (Bool-cases (n == name)) [
      | inl e ↦
          let inside = subst (λ k. contains o.steps k ≡ true) (sym ((eq_iff n name).0 e)) own in cc
      | inr e ↦ rw e (kept n out)
    ],
  )

  -- A step that runs on a record that has it started.
  Ends-executed :
      (r : TransitionRecord C R) (s : Step) (front : List Step) (m : Machine X J)
      (x : X × Ending Store)
      → touched s.name r.steps ≡ true
      → IsExecuted h o r.core r.resources s.name x
      → IsRunning r front m
      → Ends
          (λ st m'. IsRunning r (record s { started = true } ∷ front) m' × o.candidate st)
          (IsReady h o r)
          (IsSound h o)
          (with_slot s.name x.0 (tick m), x.1)
  unfolding with_slot
  Ends-executed r s front m (x, returned st) running (inside, new, next)
        (l, phase, backup, applied) =
      let l1 = IsLogged-slot h o r (tick m) s.name x (open_of phase) running inside l in
      let own =
        subst (λ names. contains names s.name ≡ true) l.1.own_steps
          (touched-names s.name r.steps running) in
      let rest = applied_slot r.core r.resources (tick m) s.name x front own new applied in
      Ends-returned (
        (
          l1,
          phase,
          backup,
          (
            (
              subst (λ y. o.applied r.core r.resources s.name (o.resource s.name) y)
                  (sym (slot_same h o (tick m) s.name x)) new,
              rest.0,
            ),
            rest.1,
          ),
        ),
        next,
      )
  Ends-executed r s front m (x, raised e) running inside (l, phase, backup, applied) =
      let m1 = with_slot s.name x (tick m) in
      let l1 = IsLogged-slot h o r (tick m) s.name x (open_of phase) running inside l in
      Ends-raised
        (logged-IsSound h o laws r m1 l1, l1.1, logged_undoable h o r m1 (open_of phase) l1)
  Ends-executed r s front m (x, stopped) running inside (l, phase, backup, applied) =
      let m1 = with_slot s.name x (tick m) in
      Ends-stopped (
        logged-IsSound h o laws r m1
          (IsLogged-slot h o r (tick m) s.name x (open_of phase) running inside l))

  pub IsReady-of :
      (r : TransitionRecord C R) (m : Machine X J)
      → IsLogged h o r m
      → r.phase ≡ applying
      → IsReady h o r m
  IsReady-of r m l phase =
      (logged-IsSound h o laws r m l, l.1, logged_undoable h o r m (open_of phase) l)

  not_waiting : (s : Step) → s.restored ≡ false → (not true || s.restored) ≡ false
  not_waiting s e = ground (arith, e)

  -- The record that the step has started.
  Ends-begin :
      (app : Config) (r : TransitionRecord C R) (s : Step) (front rest : List Step)
      (m : Machine X J)
      → r.steps ≡ rejoin front (s ∷ rest)
      → IsRunning r front m
      → Ends
          (λ u m'.
            IsRunning
              (record r { steps = rejoin front (record s { started = true } ∷ rest) })
              front
              m')
          (IsReady h o (record r { steps = rejoin front (record s { started = true } ∷ rest) }))
          (IsSound h o)
          (write_transition h app
            (record r { steps = rejoin front (record s { started = true } ∷ rest) })
            m)
  Ends-begin app r s front rest m steps (l, phase, backup, applied) =
      let begun : Step = record s { started = true } in
      let r1 : TransitionRecord C R = record r { steps = rejoin front (begun ∷ rest) } in
      let own : IsOwnRecord h o r1 = record {
        same_main = l.1.same_main;
        same_backup = l.1.same_backup;
        same_before = l.1.same_before;
        prior = l.1.prior;
        new_digest = l.1.new_digest;
        own_steps =
            names-rejoin front begun s rest refl ∙ (ap names_of (sym steps) ∙ l.1.own_steps);
      } in
      let u = logged_undoable h o r m (open_of phase) l in
      let undoable : UndoableOf h o r1 m.main m.backup m.world = record {
        main_held = u.main_held;
        backup_held = u.backup_held;
        slots = λ n. (
          (u.slots n).0,
          λ q.
              (u.slots n).1
                (subst (λ x. touched n x ≡ false) (sym steps) (begun-touched n s front rest q)),
        );
      } in
      Ends-weaken _
        (Ends-log h o laws
          (λ a b w.
            UndoableOf h o r1 a b w
            × HeldArea h.content_digest (o.backup_evidence ∷ []) b
            × AllApplied h o r.core r.resources front w)
          app r1 m (logged-IsSound h o laws r m l) (undoable, backup, applied) own
          (Undoable-open h o r.phase r1 m.main m.backup m.world (open_of phase) undoable) l.3)
        (λ v m1 w. (w.0, phase, w.1.1, w.1.2)) (λ m1 w. (w.0, own, w.1.0)) (λ m1 w. w.0)

  -- The steps all succeed, or the invariant stands.
  pub Ends-run_steps :
      (app : Config) (p : MutationPlan C R T) (front rest : List Step) (m : Machine X J)
      → p.receipt.steps ≡ rejoin front rest
      → AreFresh rest
      → IsRunning p.receipt front m
      → o.candidate p.execution
      → Ends
          (λ p1 m'. IsRunning p1.receipt p1.receipt.steps m' × o.candidate p1.execution)
          (IsSound h o)
          (IsSound h o)
          (run_steps h app p front rest m)
  unfolding run_steps execute_step
  Ends-run_steps app p front [] m steps fresh (l, phase, backup, applied) next =
      let r = p.receipt in
      Ends-returned (
        (
          l,
          phase,
          backup,
          subst (λ x. AllApplied h o r.core r.resources x m.world) (sym steps)
              (All-rejoin _ front [] applied.0 tt, applied.1),
        ),
        next,
      )
  Ends-run_steps app p front (s ∷ rest) m steps fresh runs next =
      let r = p.receipt in
      let begun : Step = record s { started = true } in
      let r1 : TransitionRecord C R = record r { steps = rejoin front (begun ∷ rest) } in
      let p1 : MutationPlan C R T = record p { receipt = r1 } in
      Ends-followed _ _
        (Ends-or_compensate (λ u m'. IsRunning r front m') app r _
          (Ends-weaken _ (Ends-check_unchanged h (IsRunning r front) (λ m' q. q) r m runs)
            (λ u m1 w. w) (λ m1 w. IsReady-of r m1 w.0 w.1)
            (λ m1 w. logged-IsSound h o laws r m1 w.0)))
        (λ u m1 w1.
          Ends-followed _ _
            (Ends-or_compensate (λ v m'. IsRunning r1 front m') app r1 _
              (Ends-begin app r s front rest m1 steps w1))
            (λ v m2 w2.
              let running = running-touched begun front rest (not_waiting begun fresh.0) in
              let inside = ((logged_undoable h o r1 m2 (open_of w2.1) w2.0).slots s.name).0 in
              Ends-followed _ _
                (Ends-or_compensate_settled
                  (λ st m'. IsRunning r1 (begun ∷ front) m' × o.candidate st) app r1 _
                  (Ends-executed r1 s front m2 _ running
                    (laws.executes m2.clock p1 s.name (m2.world s.name)
                      (subst (λ l. contains l s.name ≡ true) w2.0.1.own_steps
                        (touched-names s.name r1.steps running))
                      inside)
                    w2))
                (λ st m3 w3.
                  Ends-run_steps app (record p1 { execution = st }) (begun ∷ front) rest m3 refl
                    fresh.1 w3.0 w3.1)))
