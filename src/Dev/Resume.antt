-- ===== src/Dev/Resume.antt =====
-- A call of the restoration of a git key, from a saved plan on (internal/manager/dev.go).
use proxyscene.Common.{
  List, Result, String, ap, arith, err, inl, inr, length, ok, refl, some, subst, suc, sym, zero, ℕ,
  ◌+◌, ◌≡◌, ◌≤◌, ◌⊎◌,
}
use proxyscene.Dev.{
  Git, GitRestorePlan, GitState, Point, RestorePhase, goes_on, is_done_phase, prepared,
  restore_done, restore_loop, restore_round, then_round,
}
use proxyscene.Dev.Rounds.{Fits, FitsPhase, IsOnPlan, RoundLeft, prepared_parts, round-Left}

pub phase_cases : (phase : RestorePhase) → (phase ≡ restore_done) ⊎ (phase ≡ prepared)
phase_cases restore_done = inl refl
phase_cases prepared = inr refl

-- Behind the loop, however it ends, the saved plan fits; with a success the values are the desired
-- ones.
abbrev pub LoopLeft : Git → List String → GitState × Result (Unit {0}) → Type 0
LoopLeft git desired (st, ok u) = IsOnPlan git desired st × (st.values ≡ desired)
LoopLeft git desired (st, err e) = IsOnPlan git desired st

pub loop-Left :
    (git : Git) (points : ℕ → Point) (fuel i : ℕ) (plan : GitRestorePlan) (st : GitState)
    → st.saved ≡ some plan
    → Fits git plan st.values
    → LoopLeft git plan.desired (restore_loop git points fuel i plan st)
unfolding restore_loop
loop-Left git points zero i plan st on_disk fits = (plan, on_disk, refl, fits)
loop-Left git points (suc fuel) i plan st on_disk fits = elim (phase_cases plan.phase) [
  | inl over ↦
      let e = ap is_done_phase over in
      rw e ((plan, on_disk, refl, fits), subst (λ p. FitsPhase p plan st.values) over fits.1)
  | inr running ↦
      let e = ap is_done_phase running in
      rw e (
        behind (λ next st1 a b. loop-Left git points fuel (i + 1) next st1 a b)
          (restore_round git (points i) plan st)
          (round-Left git (points i) plan st on_disk running fits))
]
  where
    behind :
        ((next : GitRestorePlan) (st1 : GitState)
          → st1.saved ≡ some next
          → Fits git next st1.values
          → LoopLeft git next.desired (restore_loop git points fuel (i + 1) next st1))
        → (x : GitState × Result GitRestorePlan) → RoundLeft git plan (points i) x
        → LoopLeft git plan.desired (then_round (restore_loop git points fuel (i + 1)) x)
    behind again (st1, ok next) left =
        subst (λ d. LoopLeft git d (restore_loop git points fuel (i + 1) next st1)) left.1
          (again next st1 left.0 left.2)
    behind again (st1, err e) left = left.0

-- Without an interruption the loop succeeds on enough fuel.
pub loop_ends :
    (git : Git) (fuel i : ℕ) (plan : GitRestorePlan) (st : GitState)
    → st.saved ≡ some plan
    → Fits git plan st.values
    → 1 ≤ fuel
    → (plan.phase ≡ prepared → length plan.desired + 2 ≤ plan.next + fuel)
    → (restore_loop git (λ n. goes_on) fuel i plan st).1 ≡ ok tt
unfolding restore_loop
loop_ends git zero i plan st on_disk fits some_fuel enough = absurd (none_left some_fuel)
  where
    none_left : 1 ≤ 0 → ⊥
    none_left le = omega arith
loop_ends git (suc fuel) i plan st on_disk fits some_fuel enough = elim (phase_cases plan.phase) [
  | inl over ↦ rw (ap is_done_phase over) refl
  | inr running ↦ rw (ap is_done_phase running) (
      behind (λ next st1 a b c d. loop_ends git fuel (i + 1) next st1 a b c d)
        (restore_round git goes_on plan st) (prepared_parts git plan st.values running fits).0
        (enough running) (round-Left git goes_on plan st on_disk running fits))
]
  where
    more : (n l f : ℕ) → n ≤ l → l + 2 ≤ n + suc f → 1 ≤ f
    more n l f le e = omega arith

    fewer : (n l f : ℕ) → l + 2 ≤ n + suc f → l + 2 ≤ suc n + f
    fewer n l f e = omega arith

    behind :
        ((next : GitRestorePlan) (st1 : GitState)
          → st1.saved ≡ some next
          → Fits git next st1.values
          → 1 ≤ fuel
          → (next.phase ≡ prepared → length next.desired + 2 ≤ next.next + fuel)
          → (restore_loop git (λ n. goes_on) fuel (i + 1) next st1).1 ≡ ok tt)
        → (x : GitState × Result GitRestorePlan) → plan.next ≤ length plan.desired
        → length plan.desired + 2 ≤ plan.next + suc fuel
        → RoundLeft git plan goes_on x
        → (then_round (restore_loop git (λ n. goes_on) fuel (i + 1)) x).1 ≡ ok tt
    behind again (st1, ok next) le left_over left =
        again next st1 left.0 left.2 (more plan.next (length plan.desired) fuel le left_over)
          (λ phase.
            subst (λ n. length next.desired + 2 ≤ n + fuel) (sym left.3)
              (subst (λ d. length d + 2 ≤ suc plan.next + fuel) (sym left.1)
                (fewer plan.next (length plan.desired) fuel left_over)))
    behind again (st1, err e) le left_over left = absurd (left.1 refl)
