-- ===== src/Dev/Accepted.antt =====
-- The plan of a restoration that has none, and whether the backup takes it
-- (internal/manager/dev.go).
use proxyscene.Common.{
  Bool-cases, List, String, accepted, arith, eqb, false, if◌then◌else◌, inl, inr, leb, length, ltb,
  ok, others, refl, true, ℕ, ◌+◌, ◌≡◌, ◌≤◌,
}
use proxyscene.Dev.{
  Git, GitRestorePlan, check_dev_backup, contains_managed_dev_value, desired_git_proxy_values,
  is_next, max_dev_proxy_backup_bytes, restore_plan, validate_dev_git_restore_plan,
  validate_dev_proxy_value_list,
}
use proxyscene.Dev.Rounds.{Fits, IsAccepted}

-- A new plan fits the values that it was made for.
pub new_plan-Fits :
    (git : Git) (original values managed : List String)
    → IsAccepted git (restore_plan original values managed)
    → Fits git (restore_plan original values managed) values
unfolding restore_plan
new_plan-Fits git original values managed accepted = (
  accepted,
  elim (Bool-cases (contains_managed_dev_value values managed)) [
    | inl e ↦
        rw e (zero_first (length (desired_git_proxy_values original values managed)), inl refl)
    | inr e ↦ rw e refl
  ],
)
  where
    zero_first : (n : ℕ) → 0 ≤ n
    zero_first n = omega arith

new_plan_next :
    (original values managed : List String)
    → is_next
        (restore_plan original values managed).phase
        (restore_plan original values managed).next
        (length (restore_plan original values managed).desired)
      ≡ true
unfolding restore_plan
new_plan_next original values managed =
    elim (Bool-cases (contains_managed_dev_value values managed)) [
      | inl e ↦ rw e (first_one (length (desired_git_proxy_values original values managed)))
      | inr e ↦ rw e (last_one (length values))
    ]
  where
    first_one : (n : ℕ) → leb 0 n ≡ true
    first_one n = ground arith

    last_one : (n : ℕ) → eqb (n + 1) (n + 1) ≡ true
    last_one n = ground arith

-- The backup takes a new plan.
pub written :
    (git : Git) (original values managed : List String)
    → IsAccepted git (restore_plan original values managed)
    → check_dev_backup git (restore_plan original values managed) ≡ ok tt
written git original values managed accepted =
    let plan = restore_plan original values managed in
    accepted plan.phase plan.next (new_plan_next original values managed)

pub new_desired :
    (original values managed : List String)
    → (restore_plan original values managed).desired ≡ (
        if contains_managed_dev_value values managed
        then desired_git_proxy_values original values managed
        else values)
unfolding restore_plan
new_desired original values managed =
    elim (Bool-cases (contains_managed_dev_value values managed)) [
      | inl e ↦ rw e refl
      | inr e ↦ rw e refl
    ]

pub new_before :
    (original values managed : List String) → values ≡ (restore_plan original values managed).before
unfolding restore_plan
new_before original values managed = elim (Bool-cases (contains_managed_dev_value values managed)) [
  | inl e ↦ rw e refl
  | inr e ↦ rw e refl
]

-- Lists that the validation accepts, in a backup that does not become too large.
pub lists-IsAccepted :
    (git : Git) (plan : GitRestorePlan)
    → git.check_others ≡ ok tt
    → validate_dev_proxy_value_list plan.before ≡ ok tt
    → validate_dev_proxy_value_list plan.desired ≡ ok tt
    → ((p : GitRestorePlan)
        → p.before ≡ plan.before
        → p.desired ≡ plan.desired
        → git.backup_size p ≤ max_dev_proxy_backup_bytes)
    → IsAccepted git plan
unfolding check_dev_backup validate_dev_git_restore_plan
lists-IsAccepted git plan others before desired small phase k e =
    let fits =
      not_above (git.backup_size (record plan { phase = phase; next = k }))
        max_dev_proxy_backup_bytes (small (record plan { phase = phase; next = k }) refl refl) in
    rw (others, before, desired, e, fits) refl
  where
    not_above : (a b : ℕ) → a ≤ b → ltb b a ≡ false
    not_above a b le = ground arith
