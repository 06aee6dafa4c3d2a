-- ===== src/Transition/Checked.antt =====
-- What `validateRuntimeTransition` accepts (internal/manager/runtime_transition.go).
use proxyscene.Common.{
  >>-eq-ok, >>=-eq-ok, All, Bool, List, Option, String, [], accepted, arith, bad_candidate_digest,
  bad_resources, bad_step, bad_transition, contains, eq_iff, false, foreign_transition, leb, length,
  ltb, none, not, ok, refl, reject_if, some, stale_candidate, suc, true, ℕ, ◌&&◌, ◌<◌, ◌||◌, ◌∷◌,
  ◌≡◌,
}
use proxyscene.Config.{Config}
use proxyscene.Store.{Store}
use proxyscene.Transition.{
  Host, Phase, Step, TransitionRecord, applying, committed, committing, compensating, other_phase,
}
use proxyscene.Transition.Files.{encoded_store}
use proxyscene.Transition.Receipt.{
  check_compensation, check_evidence, check_phase, check_plan, check_step_name, check_steps,
  encodes, has_some, is_compensating, validate_transition,
}
use proxyscene.Transition.Writes.{not-eq-false}

module _ {C R T X J : Type 0} (h : Host C R T X J) where
  -- A compensation is later than the candidate, and only a compensating transaction has one.
  abbrev pub IsLater : TransitionRecord C R → Option Store → Type 0
  IsLater r none = Unit
  IsLater r (some st) = (r.candidate.generation < st.generation) × (r.phase ≡ compensating)

  later_parts :
      (phase : Phase) (cand comp : ℕ) (same : Bool)
      → (not (is_compensating phase) || leb comp cand || not same) ≡ false
      → (cand < comp) × (phase ≡ compensating)
  later_parts compensating cand comp same e = (ground (arith, e), refl)
  later_parts applying cand comp same e = cc
  later_parts committing cand comp same e = cc
  later_parts committed cand comp same e = cc
  later_parts (other_phase p) cand comp same e = cc

  compensation-IsLater :
      (r : TransitionRecord C R) (c : Option Store) {u : Unit {0}}
      → check_compensation h r c ≡ ok u
      → IsLater r c
  unfolding check_compensation
  compensation-IsLater r none e = tt
  compensation-IsLater r (some st) e =
      let (_, e) = >>-eq-ok (encodes h st) _ e in
      later_parts r.phase r.candidate.generation st.generation _ (accepted _ _ e)

  -- Each name is new.
  abbrev pub AreNew : List String → List Step → Type 0
  AreNew seen [] = Unit
  AreNew seen (s ∷ rest) = (contains seen s.name ≡ false) × AreNew (s.name ∷ seen) rest

  steps-AreNew :
      (r : TransitionRecord C R) (resources : R) (seen : List String) (steps : List Step)
      {u : Unit {0}}
      → check_steps h r resources seen steps ≡ ok u
      → AreNew seen steps × All (λ s. s.restored ≡ true → s.started ≡ true) steps
  unfolding check_steps
  steps-AreNew r resources seen [] e = (tt, tt)
  steps-AreNew r resources seen (s ∷ rest) e =
      let (first, e) =
        >>-eq-ok (reject_if (contains seen s.name || (not s.started && s.restored)) bad_step) _ e in
      let (_, e) = >>-eq-ok (check_step_name h r resources s.name) _ e in
      let (new, in_order) = steps-AreNew r resources (s.name ∷ seen) rest e in
      let (fresh, started) =
        split (contains seen s.name) s.started s.restored (accepted _ _ first) in
      ((fresh, new), (started, in_order))
    where
      split : (a b c : Bool) → (a || (not b && c)) ≡ false → (a ≡ false) × (c ≡ true → b ≡ true)
      split a b c e = ground arith

  plan-AreNew :
      (r : TransitionRecord C R) (resources : Option R) {u : Unit {0}}
      → check_plan h r resources ≡ ok u
      → AreNew [] r.steps × All (λ s. s.restored ≡ true → s.started ≡ true) r.steps
  unfolding check_plan
  plan-AreNew r none e = no_steps r.steps (part (has_some r.core) r.steps _ (accepted _ _ e))
    where
      part :
          (a : Bool) (steps : List Step) (b : Bool)
          → (a || ltb 0 (length steps) || b) ≡ false
          → ltb 0 (length steps) ≡ false
      part a steps b e = ground (arith, e)

      no_steps :
          (steps : List Step)
          → ltb 0 (length steps) ≡ false
          → AreNew [] steps × All (λ s. s.restored ≡ true → s.started ≡ true) steps
      no_steps [] e = (tt, tt)
      no_steps (s ∷ rest) e = absurd (some_steps (length rest) e)
        where
          some_steps : (n : ℕ) → ltb 0 (suc n) ≡ false → ⊥
          some_steps n e = ground arith
  plan-AreNew r (some resources) e =
      let (_, e) = >>-eq-ok (h.check_core_record r.core) _ e in
      let (_, e) = >>-eq-ok (h.check_resources resources) _ e in
      let (_, e) = >>-eq-ok (reject_if _ foreign_transition) _ e in
      let (_, e) = >>-eq-ok (reject_if _ bad_resources) _ e in steps-AreNew r resources [] r.steps e

  later_candidate : (a b : ℕ) → leb b a ≡ false → a < b
  later_candidate a b e = ground arith

  -- A record that passes the validation has a candidate whose text has its digest and whose
  -- generation is above that of the store before it; a compensation only while it compensates, of a
  -- generation above the candidate's; and steps of different names, none restored that has not
  -- started.
  pub validate_transition_sound :
      (app : Config) (r : TransitionRecord C R)
      → validate_transition h app r ≡ ok tt
      → ((text : List ℕ) × (encoded_store h r.candidate ≡ ok text)
          × (h.content_digest text ≡ r.candidate_digest))
        × (r.before.generation < r.candidate.generation)
        × IsLater r r.compensation
        × AreNew [] r.steps
        × All (λ s. s.restored ≡ true → s.started ≡ true) r.steps
  unfolding validate_transition
  validate_transition_sound app r e =
      let (_, e) = >>-eq-ok (reject_if _ bad_transition) _ e in
      let (_, e) = >>-eq-ok (reject_if _ foreign_transition) _ e in
      let (_, e) = >>-eq-ok (check_phase r.phase) _ e in
      let (_, e) = >>-eq-ok (encodes h r.before) _ e in
      let (_, e) = >>-eq-ok (encodes h r.candidate) _ e in
      let (text, encoded, e) = >>=-eq-ok (encoded_store h r.candidate) _ e in
      let (digest, e) = >>-eq-ok (reject_if _ bad_candidate_digest) _ e in
      let (later, e) = >>-eq-ok (reject_if _ stale_candidate) _ e in
      let (_, e) = >>-eq-ok (check_evidence r.before_main) _ e in
      let (_, e) = >>-eq-ok (check_evidence r.before_backup) _ e in
      let (compensation, e) = >>-eq-ok (check_compensation h r r.compensation) _ e in
      let (new, in_order) = plan-AreNew r r.resources e in
      (
        (
          text,
          encoded,
          (eq_iff (h.content_digest text) r.candidate_digest).0
              (not-eq-false _ (accepted _ _ digest)),
        ),
        later_candidate r.before.generation r.candidate.generation (accepted _ _ later),
        compensation-IsLater r r.compensation compensation,
        new,
        in_order,
      )
