-- ===== src/Dev/Rounds.antt =====
-- One round of the restoration of a git key (internal/manager/dev.go).
use proxyscene.Common.{
  Bool-cases, List, Option, Result, String, [], accepted, ap, arith, eqb, err, false, get_elem?,
  if◌then◌else◌, inl, inr, leb, length, ltb, none, ok, refl, some, subst, suc, sym, texts_equal,
  texts_equal_iff, true, zero, ℕ, ◌++◌, ◌+◌, ◌<◌, ◌∙◌, ◌∷◌, ◌≡◌, ◌≢◌, ◌≤◌, ◌⊎◌,
}
use proxyscene.Dev.{
  Git, GitRestorePlan, GitState, Point, RestorePhase, added, advance, before_at, change_and_check,
  change_values, check_dev_backup, check_values, dev_git_restore_transition, goes_on, is_done_phase,
  is_early, is_next, prepared, record_plan, restore_done, restore_round, round_of, stops_before,
  stops_behind, stops_between, take, write_plan,
}

pub take-all : (xs : List String) → take (length xs) xs ≡ xs
take-all [] = refl
take-all (x ∷ xs) = ap (λ l. x ∷ l) (take-all xs)

-- One more value of the list.
abbrev with_value : List String → Option String → List String
with_value values none = values
with_value values (some v) = values ++ (v ∷ [])

with_value-take :
    (xs : List String) (k : ℕ)
    → k < length xs
    → with_value (take k xs) (get_elem? xs k) ≡ take (suc k) xs
with_value-take [] k lt = absurd (none_below k lt)
  where
    none_below : (k : ℕ) → k < 0 → ⊥
    none_below k lt = omega arith
with_value-take (x ∷ xs) zero lt = refl
with_value-take (x ∷ xs) (suc k) lt =
    added_cons (get_elem? xs k) ∙ ap (λ l. x ∷ l) (with_value-take xs k (lower k (length xs) lt))
  where
    lower : (a b : ℕ) → suc a < suc b → a < b
    lower a b lt = omega arith

    added_cons :
        (found : Option String)
        → with_value (x ∷ take k xs) found ≡ x ∷ with_value (take k xs) found
    added_cons none = refl
    added_cons (some v) = refl

added_value :
    (git : Git) (values : List String) (found : Option String)
    → added git values found ≡ with_value values found
added_value git values none = refl
added_value git values (some v) = git.add_lem v values

-- The values of the key fit the plan: the round in hand has been done or it has not.
abbrev pub FitsPhase : RestorePhase → GitRestorePlan → List String → Type 0
FitsPhase restore_done plan values = values ≡ plan.desired
FitsPhase prepared plan values =
    (plan.next ≤ length plan.desired)
    × ((values ≡ before_at plan plan.next) ⊎ (values ≡ take plan.next plan.desired))

-- The backup can be written with every plan of these values.
abbrev pub IsAccepted : Git → GitRestorePlan → Type 0
IsAccepted git plan =
    (phase : RestorePhase) (k : ℕ)
    → is_next phase k (length plan.desired) ≡ true
    → check_dev_backup git (record plan { phase = phase; next = k }) ≡ ok tt

abbrev pub Fits : Git → GitRestorePlan → List String → Type 0
Fits git plan values = IsAccepted git plan × FitsPhase plan.phase plan values

-- A plan for these values is on_disk, and the values of the key fit it.
abbrev pub IsOnPlan : Git → List String → GitState → Type 0
IsOnPlan git desired st =
    (plan : GitRestorePlan) × (st.saved ≡ some plan)
    × (plan.desired ≡ desired)
    × Fits git plan st.values

change_sides :
    (git : Git) (plan : GitRestorePlan) (n : ℕ)
    → n ≤ length plan.desired
    → change_values git plan n (before_at plan n) ≡ take n plan.desired
unfolding change_values
change_sides git plan zero le = git.unset_all_lem plan.before
change_sides git plan (suc k) le =
    added_value git (take k plan.desired) (get_elem? plan.desired k)
    ∙ with_value-take plan.desired k (below k (length plan.desired) le)
  where
    below : (a b : ℕ) → suc a ≤ b → a < b
    below a b le = omega arith

last_round : (n l : ℕ) → eqb (suc n) (l + 1) ≡ true → n ≡ l
last_round n l e = ground (arith, e)

more_rounds : (n l : ℕ) → n ≤ l → eqb (suc n) (l + 1) ≡ false → suc n ≤ l
more_rounds n l le e = ground (arith, e)

next_round :
    (n l : ℕ)
    → n ≤ l
    → is_next (if eqb (suc n) (l + 1) then restore_done else prepared) (suc n) l ≡ true
next_round n l le = elim (Bool-cases (eqb (suc n) (l + 1))) [
  | inl last ↦ rw last last
  | inr more ↦ rw more (below_is (suc n) l (more_rounds n l le more))
]
  where
    below_is : (a b : ℕ) → a ≤ b → leb a b ≡ true
    below_is a b le = ground arith

-- Behind a round the values fit the plan that it records.
advanced-Fits :
    (git : Git) (plan : GitRestorePlan) (values : List String)
    → IsAccepted git plan
    → plan.phase ≡ prepared
    → plan.next ≤ length plan.desired
    → values ≡ take plan.next plan.desired
    → Fits git (advance plan) values
unfolding advance
advanced-Fits git plan values accepted phase le same = (
  accepted,
  elim (Bool-cases (eqb (suc plan.next) (length plan.desired + 1))) [
    | inl last ↦ rw last (
        same
        ∙ (ap (λ n. take n plan.desired) (last_round plan.next (length plan.desired) last)
            ∙ take-all plan.desired))
    | inr more ↦ rw (more, phase) (more_rounds plan.next (length plan.desired) le more, inl same)
  ],
)

advanced_accepted :
    (git : Git) (plan : GitRestorePlan)
    → IsAccepted git plan
    → plan.phase ≡ prepared
    → plan.next ≤ length plan.desired
    → check_dev_backup git (advance plan) ≡ ok tt
unfolding advance
advanced_accepted git plan accepted phase le =
    accepted (if eqb (suc plan.next) (length plan.desired + 1) then restore_done else plan.phase)
      (suc plan.next)
      (subst
        (λ p.
          is_next (if eqb (suc plan.next) (length plan.desired + 1) then restore_done else p)
            (suc plan.next) (length plan.desired)
          ≡ true)
        (sym phase) (next_round plan.next (length plan.desired) le))

prepared-Fits :
    (git : Git) (plan : GitRestorePlan) (values : List String)
    → IsAccepted git plan
    → plan.phase ≡ prepared
    → plan.next ≤ length plan.desired
    → values ≡ take plan.next plan.desired
    → Fits git plan values
prepared-Fits git plan values accepted phase le same =
    (accepted, subst (λ p. FitsPhase p plan values) (sym phase) (le, inr same))

-- What a round leaves.
abbrev pub RoundLeft : Git → GitRestorePlan → Point → GitState × Result GitRestorePlan → Type 0
RoundLeft git plan point (st, ok next) =
    (st.saved ≡ some next)
    × (next.desired ≡ plan.desired)
    × Fits git next st.values
    × (next.next ≡ suc plan.next)
RoundLeft git plan point (st, err e) = IsOnPlan git plan.desired st × (point ≢ goes_on)

recorded_round :
    (git : Git) (point : Point) (plan : GitRestorePlan) (st : GitState)
    → IsAccepted git plan
    → st.saved ≡ some plan
    → plan.phase ≡ prepared
    → plan.next ≤ length plan.desired
    → st.values ≡ take plan.next plan.desired
    → RoundLeft git plan point (record_plan point (advance plan) st)
unfolding record_plan advance
recorded_round git goes_on plan st a on_disk phase le same =
    (refl, refl, advanced-Fits git plan st.values a phase le same, refl)
recorded_round git stops_before plan st a on_disk phase le same =
    ((plan, on_disk, refl, prepared-Fits git plan st.values a phase le same), λ e. cc)
recorded_round git stops_between plan st a on_disk phase le same =
    ((plan, on_disk, refl, prepared-Fits git plan st.values a phase le same), λ e. cc)
recorded_round git stops_behind plan st a on_disk phase le same =
    ((advance plan, refl, refl, advanced-Fits git plan st.values a phase le same), λ e. cc)

checked_round :
    (git : Git) (point : Point) (plan : GitRestorePlan) (st : GitState)
    → IsAccepted git plan
    → st.saved ≡ some plan
    → plan.phase ≡ prepared
    → plan.next ≤ length plan.desired
    → st.values ≡ take plan.next plan.desired
    → RoundLeft git plan point (check_values git point plan (take plan.next plan.desired) st)
unfolding check_values write_plan
checked_round git point plan st a on_disk phase le same =
    rw
      (
        (texts_equal_iff st.values (take plan.next plan.desired)).1 same,
        advanced_accepted git plan a phase le,
      )
      (recorded_round git point plan st a on_disk phase le same)

pub early_is_not : (point : Point) → is_early point ≡ true → point ≢ goes_on
early_is_not stops_before e = λ x. cc
early_is_not goes_on e = cc
early_is_not stops_between e = cc
early_is_not stops_behind e = cc

changed_round :
    (git : Git) (point : Point) (plan : GitRestorePlan) (st : GitState)
    → st.saved ≡ some plan
    → plan.phase ≡ prepared
    → Fits git plan st.values
    → plan.next ≤ length plan.desired
    → (st.values ≡ before_at plan plan.next) ⊎ (st.values ≡ take plan.next plan.desired)
    → RoundLeft git plan point
        (change_and_check git point plan (before_at plan plan.next, take plan.next plan.desired) st)
unfolding change_and_check
changed_round git point plan st on_disk phase fits le sides = elim (Bool-cases (is_early point)) [
  | inl early ↦ rw early ((plan, on_disk, refl, fits), early_is_not point early)
  | inr late ↦ elim (Bool-cases (texts_equal st.values (take plan.next plan.desired))) [
    | inl there ↦
        rw (late, there)
          (checked_round git point plan st fits.0 on_disk phase le
            ((texts_equal_iff st.values (take plan.next plan.desired)).0 there))
    | inr not_there ↦ elim sides [
      | inr after ↦ let e = (texts_equal_iff st.values (take plan.next plan.desired)).1 after in cc
      | inl at ↦
          let e = (texts_equal_iff st.values (before_at plan plan.next)).1 at in
          let next : GitState = record st { values = change_values git plan plan.next st.values } in
          rw (late, not_there, e)
            (checked_round git point plan next fits.0 on_disk phase le
              (ap (change_values git plan plan.next) at ∙ change_sides git plan plan.next le))
    ]
  ]
]

pub prepared_parts :
    (git : Git) (plan : GitRestorePlan) (values : List String)
    → plan.phase ≡ prepared
    → Fits git plan values
    → (plan.next ≤ length plan.desired)
      × ((values ≡ before_at plan plan.next) ⊎ (values ≡ take plan.next plan.desired))
prepared_parts git plan values phase fits = subst (λ p. FitsPhase p plan values) phase fits.1

not_beyond : (a b : ℕ) → a ≤ b → ltb b a ≡ false
not_beyond a b le = ground arith

transition_sides :
    (plan : GitRestorePlan)
    → is_done_phase plan.phase ≡ false
    → ltb (length plan.desired) plan.next ≡ false
    → dev_git_restore_transition plan ≡ ok (before_at plan plan.next, take plan.next plan.desired)
unfolding dev_git_restore_transition
transition_sides plan open_plan within = rw (open_plan, within) refl

-- A round of a plan that fits: it records the next plan, which fits, or it ends early and the saved
-- plan fits.
pub round-Left :
    (git : Git) (point : Point) (plan : GitRestorePlan) (st : GitState)
    → st.saved ≡ some plan
    → plan.phase ≡ prepared
    → Fits git plan st.values
    → RoundLeft git plan point (restore_round git point plan st)
unfolding restore_round round_of
round-Left git point plan st on_disk phase fits =
    let (le, sides) = prepared_parts git plan st.values phase fits in
    let e =
      transition_sides plan (ap is_done_phase phase)
        (not_beyond plan.next (length plan.desired) le) in
    subst (λ x. RoundLeft git plan point (round_of git point plan st x)) (sym e)
      (changed_round git point plan st on_disk phase fits le sides)
