-- ===== src/Dev.antt =====
-- The development proxy in the git configuration of a user: the values that are managed, and the
-- restoration of one key by a plan that survives an interruption (internal/manager/dev.go). The
-- state is the values of the key and the plan in the backup file. A call that fails has made the
-- changes up to some point of one round of its loop, as has one that the process does not outlive;
-- every other call of git and of the file system goes well. A call reads the plan from the backup,
-- which takes a plan only if its checks accept it.
pub mod Rounds
pub mod Resume
pub mod Accepted
pub mod Restarts
pub mod Refused
pub mod Npm
pub mod Managed
use proxyscene.Common.{
  Bool, List, Option, Result, String, [], any_of, backup_too_large, bad_dev_value, bad_restore_plan,
  code, contains, eqb, err, every_rune, false, get_elem?, if◌then◌else◌, io_failed, keep_if, leb,
  len, length, ltb, none, not, ok, reject_if, restore_mismatch, some, suc, texts_equal,
  too_many_dev_values, trim_space, true, unfinished_restore, values_changed, zero, ℕ, ◌++◌, ◌+◌,
  ◌==◌, ◌>>=◌, ◌>>◌, ◌||◌, ◌∷◌, ◌≡◌,
}

-- `containsString`
abbrev pub contains_string : List String → String → Bool
contains_string values value = contains values value

-- `desiredGitProxyValues`
unfoldable pub desired_git_proxy_values : List String → List String → List String → List String
desired_git_proxy_values original current managed =
    original ++ keep_if (λ v. not (contains managed v)) current

-- `containsManagedDevValue`
unfoldable pub contains_managed_dev_value : List String → List String → Bool
contains_managed_dev_value current managed = any_of (contains managed) current

-- `appendUniqueString`
unfoldable pub append_unique_string : List String → String → List String
append_unique_string values value =
    if value == "" || contains values value then values else values ++ (value ∷ [])

-- `devGitApplyValueKnown`
unfoldable pub dev_git_apply_value_known : List String → List String → List String → Bool
dev_git_apply_value_known current original managed = texts_equal current original || elim current [
  | [] ↦ false
  | v ∷ rest ↦ elim rest [ [] ↦ contains managed v | w ∷ more ↦ false ]
]

-- `devRestorePhasePrepared`, `devRestorePhaseDone`
pub data RestorePhase : Type 0 where
  prepared restore_done : RestorePhase

-- `devGitRestorePlan`
pub record GitRestorePlan : Type 0 where
  pub phase : RestorePhase
  pub before : List String
  pub desired : List String
  pub next : ℕ

pub record GitState : Type 0 where
  pub values : List String
  pub saved : Option GitRestorePlan

-- Where one round ends early: before the change of the values, between the change and the record of
-- it, or behind the record.
pub data Point : Type 0 where
  goes_on stops_before stops_between stops_behind : Point

abbrev pub is_early : Point → Bool
is_early stops_before = true
is_early _ = false

abbrev pub take : ℕ → List String → List String
take zero xs = []
take (suc n) [] = []
take (suc n) (x ∷ xs) = x ∷ take n xs

abbrev pub is_done_phase : RestorePhase → Bool
is_done_phase prepared = false
is_done_phase restore_done = true

abbrev pub before_at : GitRestorePlan → ℕ → List String
before_at plan zero = plan.before
before_at plan (suc k) = take k plan.desired

-- `devGitRestoreTransition`
unfoldable pub dev_git_restore_transition : GitRestorePlan → Result (List String × List String)
dev_git_restore_transition plan =
    if is_done_phase plan.phase || ltb (length plan.desired) plan.next
    then err bad_restore_plan
    else ok (before_at plan plan.next, take plan.next plan.desired)

abbrev max_dev_proxy_values : ℕ
max_dev_proxy_values = 4096

abbrev max_dev_proxy_value_bytes : ℕ
max_dev_proxy_value_bytes = 65536

abbrev pub max_dev_proxy_backup_bytes : ℕ
max_dev_proxy_backup_bytes = 1048576

-- `validateDevProxyValue`, of a value that is there
unfoldable pub validate_dev_proxy_value : String → Result (Unit {0})
validate_dev_proxy_value value =
    reject_if
      (eqb (len value) 0
        || ltb max_dev_proxy_value_bytes (len value)
        || not (trim_space value == value)
        || not (every_rune (λ c. not (eqb (code c) 0)) value))
      bad_dev_value

unfoldable pub validate_dev_proxy_values : List String → Result (Unit {0})
validate_dev_proxy_values [] = ok tt
validate_dev_proxy_values (v ∷ rest) = do validate_dev_proxy_value v; validate_dev_proxy_values rest

-- `validateDevProxyValueList`
unfoldable pub validate_dev_proxy_value_list : List String → Result (Unit {0})
validate_dev_proxy_value_list values = do
  reject_if (ltb max_dev_proxy_values (length values)) too_many_dev_values
  validate_dev_proxy_values values

-- Whether the round in hand is one of the plan.
abbrev pub is_next : RestorePhase → ℕ → ℕ → Bool
is_next prepared next count = leb next count
is_next restore_done next count = eqb next (count + 1)

-- `validateDevGitRestorePlan`, of a plan that is there
unfoldable pub validate_dev_git_restore_plan : GitRestorePlan → Result (Unit {0})
validate_dev_git_restore_plan plan = do
  validate_dev_proxy_value_list plan.before
  validate_dev_proxy_value_list plan.desired
  reject_if (not (is_next plan.phase plan.next (length plan.desired))) bad_restore_plan

-- What the restoration takes from the rest: what the two commands of git do to the values of a key,
-- the checks of the other fields of the backup, and the number of bytes of the backup with a plan.
pub record Git : Type 0 where
  pub unset_all : List String → List String
  pub add : String → List String → List String
  pub unset_all_lem : (values : List String) → unset_all values ≡ []
  pub add_lem : (v : String) (values : List String) → add v values ≡ values ++ (v ∷ [])
  pub check_others : Result (Unit {0})
  pub backup_size : GitRestorePlan → ℕ

-- The checks of `writeDevBackup`.
unfoldable pub check_dev_backup : Git → GitRestorePlan → Result (Unit {0})
check_dev_backup git plan = do
  git.check_others
  validate_dev_git_restore_plan plan
  reject_if (ltb max_dev_proxy_backup_bytes (git.backup_size plan)) backup_too_large

abbrev pub added : Git → List String → Option String → List String
added git values none = values
added git values (some v) = git.add v values

-- `git config --unset-all`, then `git config --add` of one value after the other.
unfoldable pub change_values : Git → GitRestorePlan → ℕ → List String → List String
change_values git plan zero values = git.unset_all values
change_values git plan (suc k) values = added git values (get_elem? plan.desired k)

-- The plan behind a round.
unfoldable pub advance : GitRestorePlan → GitRestorePlan
advance plan = record plan {
  next = suc plan.next;
  phase = if eqb (suc plan.next) (length plan.desired + 1) then restore_done else plan.phase;
}

-- The write of the backup.
unfoldable pub record_plan : Point → GitRestorePlan → GitState → GitState × Result GitRestorePlan
record_plan goes_on plan st = (record st { saved = some plan }, ok plan)
record_plan stops_before plan st = (st, err io_failed)
record_plan stops_between plan st = (st, err io_failed)
record_plan stops_behind plan st = (record st { saved = some plan }, err io_failed)

-- `writeDevBackup`, and what the loop goes on with.
unfoldable pub write_plan :
    Point → GitRestorePlan → GitState → Result (Unit {0}) → GitState × Result GitRestorePlan
write_plan point plan st (ok u) = record_plan point plan st
write_plan point plan st (err e) = (st, err e)

-- The check behind the change.
unfoldable pub check_values :
    Git → Point → GitRestorePlan → List String → GitState → GitState × Result GitRestorePlan
check_values git point plan after st =
    if texts_equal st.values after
    then write_plan point (advance plan) st (check_dev_backup git (advance plan))
    else (st, err restore_mismatch)

unfoldable pub change_and_check :
    Git
    → Point
    → GitRestorePlan
    → List String × List String
    → GitState
    → GitState × Result GitRestorePlan
change_and_check git point plan (before, after) st =
    if is_early point
    then (st, err io_failed)
    else if texts_equal st.values after
    then check_values git point plan after st
    else if texts_equal st.values before
    then check_values git point plan after
        (record st { values = change_values git plan plan.next st.values })
    else (st, err values_changed)

unfoldable pub round_of :
    Git
    → Point
    → GitRestorePlan
    → GitState
    → Result (List String × List String)
    → GitState × Result GitRestorePlan
round_of git point plan st (err e) = (st, err e)
round_of git point plan st (ok sides) = change_and_check git point plan sides st

-- One round of the loop of `restoreDevGitProxy`.
unfoldable pub restore_round :
    Git → Point → GitRestorePlan → GitState → GitState × Result GitRestorePlan
restore_round git point plan st = round_of git point plan st (dev_git_restore_transition plan)

abbrev pub then_round :
    (GitRestorePlan → GitState → GitState × Result (Unit {0}))
    → GitState × Result GitRestorePlan
    → GitState × Result (Unit {0})
then_round go (st, ok plan) = go plan st
then_round go (st, err e) = (st, err e)

-- The loop, on fuel; `points` says where each round ends.
unfoldable pub restore_loop :
    Git → (ℕ → Point) → ℕ → ℕ → GitRestorePlan → GitState → GitState × Result (Unit {0})
restore_loop git points zero i plan st = (st, err unfinished_restore)
restore_loop git points (suc fuel) i plan st =
    let next =
      then_round (restore_loop git points fuel (i + 1)) (restore_round git (points i) plan st) in
    if is_done_phase plan.phase then (st, ok tt) else next

-- Rounds left: one for each value, and one to remove the old ones.
abbrev pub enough_rounds : GitRestorePlan → ℕ
enough_rounds plan = length plan.desired + 2

-- The plan of a restoration that has none.
unfoldable pub restore_plan : List String → List String → List String → GitRestorePlan
restore_plan original current managed =
    if contains_managed_dev_value current managed
    then record {
      phase = prepared;
      before = current;
      desired = desired_git_proxy_values original current managed;
      next = 0;
    }
    else record {
      phase = restore_done;
      before = current;
      desired = current;
      next = length current + 1;
    }

unfoldable pub restore_saved :
    Git
    → (ℕ → Point)
    → List String
    → List String
    → GitState
    → Option GitRestorePlan
    → GitState × Result (Unit {0})
restore_saved git points original managed st (some plan) =
    restore_loop git points (enough_rounds plan) 1 plan st
restore_saved git points original managed st none =
    let plan = restore_plan original st.values managed in
    then_round (restore_loop git points (enough_rounds plan) 1)
      (write_plan (points 0) plan st (check_dev_backup git plan))

-- `restoreDevGitProxy`
unfoldable pub restore_dev_git_proxy :
    Git → (ℕ → Point) → List String → List String → GitState → GitState × Result (Unit {0})
restore_dev_git_proxy git points original managed st =
    restore_saved git points original managed st st.saved
