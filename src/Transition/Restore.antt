-- ===== src/Transition/Restore.antt =====
-- The compensation of the steps restores every resource (`compensateRuntimeTransition`,
-- internal/manager/runtime_transition.go).
use proxyscene.Common.{
  Bool, Bool-cases, List, String, [], ap, contains, eq_iff, false, inl, inr, not, refl, subst, sym,
  true, ◌==◌, ◌||◌, ◌∙◌, ◌∷◌, ◌≡◌,
}
use proxyscene.Config.{Config}
use proxyscene.Transition.{
  Area, Host, Machine, Phase, Step, TransitionRecord, Undo, applying, broken, checkpoint, committed,
  committing, compensating, cut_off, other_phase, undone,
}
use proxyscene.Transition.Compensate.{mark_restored, rejoin, restore_steps, run_undo, with_slot}
use proxyscene.Transition.Outcomes.{
  Ends, Ends-followed, Ends-raised, Ends-returned, Ends-stopped, Ends-weaken,
}
use proxyscene.Transition.Receipt.{write_transition}
use proxyscene.Transition.Slots.{
  Slots-set, marked-touched, names-rejoin, quiet_restored, quiet_step, running-touched, slot_same,
  touched-names,
}
use proxyscene.Transition.Sound.{
  IsLogged, IsOwnRecord, IsSafeUndo, IsSound, Laws, Origin, Pending, UndoableOf, names_of, touched,
}
use proxyscene.Transition.Writes.{Ends-log, logged-IsSound}

-- The phases in which the files are still the old ones.
abbrev pub is_open : Phase → Bool
is_open applying = true
is_open compensating = true
is_open _ = false

module _ {C R T X J : Type 0} (h : Host C R T X J) (o : Origin C R X) where
  pub open-Undoable :
      (phase : Phase) (r : TransitionRecord C R) (main backup : Area) (world : String → X)
      → is_open phase ≡ true
      → Pending h o phase r main backup world
      → UndoableOf h o r main backup world
  open-Undoable applying r main backup world e p = p
  open-Undoable compensating r main backup world e p = p
  open-Undoable committing r main backup world e p = cc
  open-Undoable committed r main backup world e p = cc
  open-Undoable (other_phase x) r main backup world e p = cc

  pub Undoable-open :
      (phase : Phase) (r : TransitionRecord C R) (main backup : Area) (world : String → X)
      → is_open phase ≡ true
      → UndoableOf h o r main backup world
      → Pending h o phase r main backup world
  Undoable-open applying r main backup world e u = u
  Undoable-open compensating r main backup world e u = u
  Undoable-open committing r main backup world e u = cc
  Undoable-open committed r main backup world e u = cc
  Undoable-open (other_phase x) r main backup world e u = cc

  pub logged_undoable :
      (r : TransitionRecord C R) (m : Machine X J)
      → is_open r.phase ≡ true
      → IsLogged h o r m
      → UndoableOf h o r m.main m.backup m.world
  logged_undoable r m e (j, own, pending, tidy) =
      open-Undoable r.phase r m.main m.backup m.world e pending

  -- A running step may change its resource.
  pub IsLogged-slot :
      (r : TransitionRecord C R) (m : Machine X J) (name : String) (x : X)
      → is_open r.phase ≡ true
      → touched name r.steps ≡ true
      → o.within r.core r.resources name (o.resource name) x
      → IsLogged h o r m
      → IsLogged h o r (with_slot name x m)
  unfolding with_slot
  IsLogged-slot r m name x e running inside (j, own, pending, tidy) =
      let u = open-Undoable r.phase r m.main m.backup m.world e pending in
      let slots = Slots-set h o r.core r.resources r.steps m name x running inside u.slots in
      (
        j,
        own,
        Undoable-open r.phase r m.main m.backup _ e
            (record { main_held = u.main_held; backup_held = u.backup_held; slots = slots }),
        tidy,
      )

  -- Every resource is as it was.
  abbrev pub AllRestored : (String → X) → Type 0
  AllRestored world = (n : String) → world n ≡ o.resource n

  module _ (laws : Laws h o) where
    abbrev Undone : String → TransitionRecord C R → TransitionRecord C R → Machine X J → Type 0
    Undone name r r1 m =
        IsLogged h o r1 m
        × (m.world name ≡ o.resource name)
        × (r1.steps ≡ r.steps)
        × (r1.phase ≡ r.phase)

    Ends-run_undo :
        (app : Config) (name : String) (r : TransitionRecord C R) (u : Undo C R X) (m : Machine X J)
        → is_open r.phase ≡ true
        → touched name r.steps ≡ true
        → IsSafeUndo h o r.core r.resources name u
        → IsLogged h o r m
        → Ends (Undone name r) (IsSound h o) (IsSound h o) (run_undo h app name r u m)
    unfolding run_undo
    Ends-run_undo app name r (checkpoint core resources x rest) m e running (inside, grow, safe) l =
        let next : TransitionRecord C R = record r { core = core; resources = resources } in
        let m1 = with_slot name x m in
        let l1 = IsLogged-slot r m name x e running inside l in
        let u = logged_undoable r m1 e l1 in
        let pending = Undoable-open r.phase next m1.main m1.backup m1.world e (record {
          main_held = u.main_held;
          backup_held = u.backup_held;
          slots = λ n. (grow n _ _ (u.slots n).0, (u.slots n).1);
        }) in
        Ends-followed _ _
          (Ends-weaken _
            (Ends-log h o laws (λ a b w. Unit) app next m1 (logged-IsSound h o laws r m1 l1) tt l1.1
              pending l1.3)
            (λ v m2 w. w.0) (λ m2 w. w.0) (λ m2 w. w.0))
          (λ v m2 l2. Ends-run_undo app name next rest m2 e running safe l2)
    Ends-run_undo app name r (undone x) m e running (inside, back) l =
        Ends-returned
          (IsLogged-slot r m name x e running inside l, slot_same h o m name x ∙ back, refl, refl)
    Ends-run_undo app name r (broken x f) m e running inside l = Ends-raised (
        logged-IsSound h o laws r (with_slot name x m)
          (IsLogged-slot r m name x e running inside l))
    Ends-run_undo app name r (cut_off x) m e running inside l = Ends-stopped (
        logged-IsSound h o laws r (with_slot name x m)
          (IsLogged-slot r m name x e running inside l))

    abbrev Restored : TransitionRecord C R → Machine X J → Type 0
    Restored r m = IsLogged h o r m × (is_open r.phase ≡ true) × AllRestored m.world

    abbrev Quiet : List Step → Type 0
    Quiet steps = (n : String) → touched n steps ≡ false

    -- The record that the step is restored, once it is.
    Ends-mark :
        (app : Config) (s : Step) (front back : List Step) (r : TransitionRecord C R)
        (m : Machine X J)
        → is_open r.phase ≡ true
        → r.steps ≡ rejoin front (s ∷ back)
        → IsLogged h o r m
        → m.world s.name ≡ o.resource s.name
        → Ends
            (λ u m'. IsLogged h o (record r { steps = rejoin front (mark_restored s ∷ back) }) m')
            (IsSound h o)
            (IsSound h o)
            (write_transition h app (record r { steps = rejoin front (mark_restored s ∷ back) }) m)
    Ends-mark app s front back r m e steps l same =
        let r2 : TransitionRecord C R = record r {
          steps = rejoin front (mark_restored s ∷ back);
        } in
        let own : IsOwnRecord h o r2 = record {
          same_main = l.1.same_main;
          same_backup = l.1.same_backup;
          same_before = l.1.same_before;
          prior = l.1.prior;
          new_digest = l.1.new_digest;
          own_steps =
              names-rejoin front (mark_restored s) s back refl
              ∙ (ap names_of (sym steps) ∙ l.1.own_steps);
        } in
        let u = logged_undoable r m e l in
        let pending = Undoable-open r.phase r2 m.main m.backup m.world e (record {
          main_held = u.main_held;
          backup_held = u.backup_held;
          slots = λ n. (
            (u.slots n).0,
            λ q. elim (Bool-cases (n == s.name)) [
              | inl at ↦ subst (λ k. m.world k ≡ o.resource k) (sym ((eq_iff n s.name).0 at)) same
              | inr other ↦
                  let kept = marked-touched n s (mark_restored s) front back refl other in
                  (u.slots n).1 (subst (λ x. touched n x ≡ false) (sym steps) (sym kept ∙ q))
            ],
          );
        }) in
        Ends-weaken _
          (Ends-log h o laws (λ a b w. Unit) app r2 m (logged-IsSound h o laws r m l) tt own pending
            l.3)
          (λ v m2 w. w.0) (λ m2 w. w.0) (λ m2 w. w.0)

    pub Ends-restore_steps :
        (app runner : Config) (r : TransitionRecord C R) (front back : List Step) (m : Machine X J)
        → is_open r.phase ≡ true
        → r.steps ≡ rejoin front back
        → Quiet back
        → IsLogged h o r m
        → Ends Restored (IsSound h o) (IsSound h o) (restore_steps h app runner r front back m)
    unfolding restore_steps
    Ends-restore_steps app runner r [] back m e steps quiet l =
        let u = logged_undoable r m e l in
        Ends-returned
          (l, e, λ n. (u.slots n).1 (subst (λ x. touched n x ≡ false) (sym steps) (quiet n)))
    Ends-restore_steps app runner r (s ∷ front) back m e steps quiet l =
        elim (Bool-cases (not s.started || s.restored)) [
          | inl skip ↦ rw skip (
              Ends-restore_steps app runner r front (s ∷ back) m e steps
                (λ n. quiet_step n s back skip (quiet n)) l)
          | inr run ↦
              let running =
                subst (λ x. touched s.name x ≡ true) (sym steps)
                  (running-touched s front back run) in
              let inside = ((logged_undoable r m e l).slots s.name).0 in
              let safe =
                laws.undoes m.clock runner r s.name (m.world s.name)
                  (subst (λ l. contains l s.name ≡ true) l.1.own_steps
                    (touched-names s.name r.steps running))
                  inside in
              rw run (
                Ends-followed _ _ (Ends-run_undo app s.name r _ m e running safe l) (λ r1 m1 undone.
                  let r2 : TransitionRecord C R = record r1 {
                    steps = rejoin front (mark_restored s ∷ back);
                  } in
                  let e1 = ap is_open undone.3 ∙ e in
                  Ends-followed _ _
                    (Ends-mark app s front back r1 m1 e1 (undone.2 ∙ steps) undone.0 undone.1)
                    (λ u m2 l2.
                      Ends-restore_steps app runner r2 front (mark_restored s ∷ back) m2 e1 refl
                        (λ n. quiet_restored n s back (quiet n)) l2)))
        ]
