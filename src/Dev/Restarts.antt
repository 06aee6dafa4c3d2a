-- ===== src/Dev/Restarts.antt =====
-- Calls of the restoration of a git key, one after the other (internal/manager/dev.go).
use proxyscene.Common.{
  List, Result, String, [], accepted, arith, err, if◌then◌else◌, inl, inr, length, none, ok, others,
  refl, some, subst, sym, ℕ, ◌+◌, ◌∙◌, ◌∷◌, ◌≡◌, ◌≤◌, ◌⊎◌,
}
use proxyscene.Dev.{
  Git, GitRestorePlan, GitState, Point, contains_managed_dev_value, desired_git_proxy_values,
  enough_rounds, goes_on, max_dev_proxy_backup_bytes, record_plan, restore_dev_git_proxy,
  restore_loop, restore_plan, restore_saved, stops_before, stops_behind, stops_between, then_round,
  validate_dev_proxy_value_list, write_plan,
}
use proxyscene.Dev.Accepted.{lists-IsAccepted, new_before, new_desired, new_plan-Fits, written}
use proxyscene.Dev.Resume.{LoopLeft, loop-Left, loop_ends}
use proxyscene.Dev.Rounds.{Fits, IsAccepted, IsOnPlan}

-- A state that a restoration to `desired` may have left: it has not been started, or its plan is saved.
abbrev IsUnderway : Git → List String → List String → List String → GitState → Type 0
IsUnderway git original managed desired st =
    ((st.saved ≡ none)
      × ((restore_plan original st.values managed).desired ≡ desired)
      × IsAccepted git (restore_plan original st.values managed))
    ⊎ IsOnPlan git desired st

loop_Underway :
    (git : Git) (original managed desired : List String) (x : GitState × Result (Unit {0}))
    → LoopLeft git desired x
    → IsUnderway git original managed desired x.0
loop_Underway git original managed desired (st, ok u) left = inr left.0
loop_Underway git original managed desired (st, err e) left = inr left

started :
    (git : Git) (points : ℕ → Point) (original managed : List String) (st : GitState)
    (point : Point)
    → st.saved ≡ none
    → IsAccepted git (restore_plan original st.values managed)
    → IsUnderway git original managed
        (restore_plan original st.values managed).desired
        (then_round
          (restore_loop git points (enough_rounds (restore_plan original st.values managed)) 1)
          (record_plan point (restore_plan original st.values managed) st)).0
unfolding record_plan
started git points original managed st goes_on fresh accepted =
    let plan = restore_plan original st.values managed in
    loop_Underway git original managed plan.desired
      (restore_loop git points (enough_rounds plan) 1 plan (record st { saved = some plan }))
      (loop-Left git points (enough_rounds plan) 1 plan (record st { saved = some plan }) refl
        (new_plan-Fits git original st.values managed accepted))
started git points original managed st stops_before fresh accepted = inl (fresh, refl, accepted)
started git points original managed st stops_between fresh accepted = inl (fresh, refl, accepted)
started git points original managed st stops_behind fresh accepted = inr (
  restore_plan original st.values managed,
  refl,
  refl,
  new_plan-Fits git original st.values managed accepted,
)

-- However a call ends, the restoration is still one to the same values.
call_Underway :
    (git : Git) (points : ℕ → Point) (original managed desired : List String) (st : GitState)
    → IsUnderway git original managed desired st
    → IsUnderway git original managed desired
        (restore_dev_git_proxy git points original managed st).0
unfolding restore_dev_git_proxy restore_saved write_plan
call_Underway git points original managed desired st (inl (fresh, same, accepted)) =
    let plan = restore_plan original st.values managed in
    subst
      (λ found.
        IsUnderway git original managed desired
          (restore_saved git points original managed st found).0)
      (sym fresh)
      (subst
        (λ r.
          IsUnderway git original managed desired
            (then_round (restore_loop git points (enough_rounds plan) 1)
              (write_plan (points 0) plan st r)).0)
        (sym (written git original st.values managed accepted))
        (subst
          (λ d.
            IsUnderway git original managed d
              (then_round (restore_loop git points (enough_rounds plan) 1)
                (record_plan (points 0) plan st)).0)
          same (started git points original managed st (points 0) fresh accepted)))
call_Underway git points original managed desired st (inr (plan, on_disk, same, fits)) =
    subst
      (λ found.
        IsUnderway git original managed desired
          (restore_saved git points original managed st found).0)
      (sym on_disk)
      (subst
        (λ d.
          IsUnderway git original managed d
            (restore_loop git points (enough_rounds plan) 1 plan st).0)
        same
        (loop_Underway git original managed plan.desired
          (restore_loop git points (enough_rounds plan) 1 plan st)
          (loop-Left git points (enough_rounds plan) 1 plan st on_disk fits)))

-- The calls one after the other, each with its interruptions.
unfoldable pub run_all : Git → List (ℕ → Point) → List String → List String → GitState → GitState
run_all git [] original managed st = st
run_all git (points ∷ calls) original managed st =
    run_all git calls original managed (restore_dev_git_proxy git points original managed st).0

calls_Underway :
    (git : Git) (calls : List (ℕ → Point)) (original managed desired : List String) (st : GitState)
    → IsUnderway git original managed desired st
    → IsUnderway git original managed desired (run_all git calls original managed st)
unfolding run_all
calls_Underway git [] original managed desired st underway = underway
calls_Underway git (points ∷ calls) original managed desired st underway =
    calls_Underway git calls original managed desired
      (restore_dev_git_proxy git points original managed st).0
      (call_Underway git points original managed desired st underway)

Ends : List String → GitState × Result (Unit {0}) → Type 0
Ends desired x = (x.1 ≡ ok tt) × (x.0.values ≡ desired)

both_parts :
    (git : Git) (desired : List String) (x : GitState × Result (Unit {0}))
    → x.1 ≡ ok tt
    → LoopLeft git desired x
    → Ends desired x
unfolding Ends
both_parts git desired (st, ok u) e left = (e, left.1)
both_parts git desired (st, err f) e left = cc

-- The loop of a saved plan that fits has enough rounds.
whole_loop :
    (git : Git) (plan : GitRestorePlan) (st : GitState)
    → st.saved ≡ some plan
    → Fits git plan st.values
    → Ends plan.desired (restore_loop git (λ n. goes_on) (enough_rounds plan) 1 plan st)
whole_loop git plan st on_disk fits =
    both_parts git plan.desired (restore_loop git (λ n. goes_on) (enough_rounds plan) 1 plan st)
      (loop_ends git (enough_rounds plan) 1 plan st on_disk fits (one (length plan.desired))
        (λ phase. enough (length plan.desired) plan.next))
      (loop-Left git (λ n. goes_on) (enough_rounds plan) 1 plan st on_disk fits)
  where
    one : (l : ℕ) → 1 ≤ l + 2
    one l = omega arith

    enough : (l n : ℕ) → l + 2 ≤ n + (l + 2)
    enough l n = omega arith

last_call :
    (git : Git) (original managed desired : List String) (st : GitState)
    → IsUnderway git original managed desired st
    → Ends desired (restore_dev_git_proxy git (λ n. goes_on) original managed st)
unfolding restore_dev_git_proxy restore_saved record_plan write_plan
last_call git original managed desired st (inl (fresh, same, accepted)) =
    let plan = restore_plan original st.values managed in
    subst (λ found. Ends desired (restore_saved git (λ n. goes_on) original managed st found))
      (sym fresh)
      (subst
        (λ r. Ends desired (
          then_round (restore_loop git (λ n. goes_on) (enough_rounds plan) 1)
            (write_plan goes_on plan st r)))
        (sym (written git original st.values managed accepted))
        (subst
          (λ d. Ends d (
            restore_loop git (λ n. goes_on) (enough_rounds plan) 1 plan
              (record st { saved = some plan })))
          same
          (whole_loop git plan (record st { saved = some plan }) refl
            (new_plan-Fits git original st.values managed accepted))))
last_call git original managed desired st (inr (plan, on_disk, same, fits)) =
    subst (λ found. Ends desired (restore_saved git (λ n. goes_on) original managed st found))
      (sym on_disk)
      (subst (λ d. Ends d (restore_loop git (λ n. goes_on) (enough_rounds plan) 1 plan st)) same
        (whole_loop git plan st on_disk fits))

-- What the first values of the key call for: the original ones with the values added since that are
-- not managed, if a managed one is among them, and otherwise themselves.
abbrev pub wanted_values : List String → List String → List String → List String
wanted_values original current managed =
    if contains_managed_dev_value current managed
    then desired_git_proxy_values original current managed
    else current

-- From a state without a saved plan, after any calls of the restoration, each interrupted at any
-- points or at none, a call without an interruption succeeds and the values of the key are those
-- that the first values call for: the original ones with the values added since that are not managed,
-- if a managed one was among the first, and the first ones if none was. The validation accepts the
-- first values, those that they call for and the other fields of the backup, and the backup with a
-- plan of these values is not too large.
pub restore_resumes :
    (git : Git) (calls : List (ℕ → Point)) (original managed : List String) (st : GitState)
    → st.saved ≡ none
    → git.check_others ≡ ok tt
    → validate_dev_proxy_value_list st.values ≡ ok tt
    → validate_dev_proxy_value_list (wanted_values original st.values managed) ≡ ok tt
    → ((p : GitRestorePlan)
        → p.before ≡ st.values
        → p.desired ≡ wanted_values original st.values managed
        → git.backup_size p ≤ max_dev_proxy_backup_bytes)
    → ((restore_dev_git_proxy git
          (λ n. goes_on)
          original
          managed
          (run_all git calls original managed st)).1
        ≡ ok tt)
      × ((restore_dev_git_proxy git
            (λ n. goes_on)
            original
            managed
            (run_all git calls original managed st)).0.values
          ≡ wanted_values original st.values managed)
unfolding Ends
restore_resumes git calls original managed st fresh others before desired small =
    let plan = restore_plan original st.values managed in
    let same = new_desired original st.values managed in
    let first = new_before original st.values managed in
    let accepted : IsAccepted git plan =
      lists-IsAccepted git plan others
        (subst (λ l. validate_dev_proxy_value_list l ≡ ok tt) first before)
        (subst (λ l. validate_dev_proxy_value_list l ≡ ok tt) (sym same) desired)
        (λ p e e1. small p (e ∙ sym first) (e1 ∙ same)) in
    last_call git original managed (wanted_values original st.values managed)
      (run_all git calls original managed st)
      (calls_Underway git calls original managed (wanted_values original st.values managed) st
        (inl (fresh, same, accepted)))
