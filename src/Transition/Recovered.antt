-- ===== src/Transition/Recovered.antt =====
-- `recoverRuntimeTransition`: a recovery that returns has finished the transaction
-- (internal/manager/runtime_transition.go).
use proxyscene.Common.{
  >>-eq-ok, Bool, Bool-cases, Option, String, [], accepted, err, false, if◌then◌else◌, inl, inr,
  ltb, none, ok, ok-injective, some, subst, sym, transition_too_large, true, ◌∙◌, ◌∷◌, ◌≡◌,
}
use proxyscene.Config.{Config}
use proxyscene.Store.Persist.{FileState, absent, bytes, unreadable}
use proxyscene.Transition.{
  Area, Ending, Evidence, Host, Machine, Phase, RecordFile, TransitionRecord, applying, committed,
  committing, compensating, no_record, other_phase, raised, record_text, returned, stopped, tick,
  unreadable_record,
}
use proxyscene.Transition.Areas.{allows_one, same_evidence_refl}
use proxyscene.Transition.Compensate.{
  finalize, is_committed, is_missing, may_commit, recover, recover_read, recover_record,
}
use proxyscene.Transition.Compensated.{compensate-IsSound}
use proxyscene.Transition.Files.{
  area_at, evidence_of, file_evidence, no_evidence, same_evidence, store_evidence,
}
use proxyscene.Transition.Outcomes.{
  Ends, Ends-attempt, Ends-followed, Ends-observe, Ends-raised, Ends-returned, Ends-stopped,
  Ends-weaken, then_attempt, then_observe,
}
use proxyscene.Transition.Receipt.{
  decoded_record, max_transition_bytes, parsed, read_transition, validate_transition,
}
use proxyscene.Transition.Settle.{Ends-settle_all}
use proxyscene.Transition.Sound.{
  AllApplied, FileIn, IsAtomic, IsDone, IsOwnRecord, IsSound, IsTidy, Laws, Origin, Pending, Sound,
  UndoableOf,
}
use proxyscene.Transition.Stable.{OnMachine, stable_at_backup, stable_at_main, stable_found}
use proxyscene.Transition.Writes.{Ends-check_committed, Ends-remove, not-eq-false}

module _ {C R T X J : Type 0} (h : Host C R T X J) (o : Origin C R X) where
  pub file_seen :
      (f : FileState) (seen e : Evidence)
      → file_evidence h f ≡ ok seen
      → FileIn h.content_digest (e ∷ []) f
      → same_evidence seen e ≡ true
  unfolding file_evidence
  file_seen absent seen e read p =
      let same = sym (ok-injective read) ∙ sym (allows_one e no_evidence p) in
      subst (λ x. same_evidence seen x ≡ true) same (same_evidence_refl seen)
  file_seen unreadable seen e read p = cc
  file_seen (bytes t) seen e read p =
      let same =
        sym (ok-injective read) ∙ sym (allows_one e (evidence_of (h.content_digest t)) p) in
      subst (λ x. same_evidence seen x ≡ true) same (same_evidence_refl seen)

  -- A record on the disk that reads is the true one.
  Sound-record :
      (app : Config) (j : RecordFile J) (main backup : Area) (world : String → X)
      (r : TransitionRecord C R)
      → decoded_record h app j ≡ ok r
      → Sound h o j main backup world
      → IsOwnRecord h o r × Pending h o r.phase r main backup world
  unfolding decoded_record parsed
  Sound-record app no_record main backup world r read sound = cc
  Sound-record app unreadable_record main backup world r read sound = cc
  Sound-record app (record_text text) main backup world r read (r1, parses, own, pending) =
      subst (λ x. IsOwnRecord h o x × Pending h o x.phase x main backup world)
        (read_same (h.parse_record text) r1 parses
          (within (ltb max_transition_bytes (h.record_size text)) read))
        (own, pending)
    where
      within :
          (large : Bool)
          → (if large then err transition_too_large else parsed h app (h.parse_record text)) ≡ ok r
          → parsed h app (h.parse_record text) ≡ ok r
      within true e = cc
      within false e = e

      read_same :
          (found : Option (TransitionRecord C R)) (r1 : TransitionRecord C R)
          → found ≡ some r1
          → parsed h app found ≡ ok r
          → r1 ≡ r
      read_same none r1 e e1 = cc
      read_same (some x) r1 e e1 =
          let same = ok-injective (>>-eq-ok (validate_transition h app x) (ok x) e1).1 in cc

  committed-applied :
      (phase : Phase) (r : TransitionRecord C R) (main backup : Area) (world : String → X)
      → may_commit phase ≡ true
      → Pending h o phase r main backup world
      → AllApplied h o r.core r.resources r.steps world
  committed-applied committing r main backup world e p = p.0
  committed-applied committed r main backup world e p = p.0
  committed-applied applying r main backup world e p = cc
  committed-applied compensating r main backup world e p = cc
  committed-applied (other_phase x) r main backup world e p = cc

  -- Short of the commit of the main file, all can be undone.
  pub undoable_before_commit :
      (phase : Phase) (r : TransitionRecord C R) (main backup : Area) (world : String → X)
      (seen : Evidence)
      → is_committed phase ≡ false
      → file_evidence h main.file ≡ ok seen
      → same_evidence seen (evidence_of r.candidate_digest) ≡ false
      → Pending h o phase r main backup world
      → UndoableOf h o r main backup world
  undoable_before_commit applying r main backup world seen e read other p = p
  undoable_before_commit compensating r main backup world seen e read other p = p
  undoable_before_commit committing r main backup world seen e read other (_, inl u) = u
  undoable_before_commit committing r main backup world seen e read other (_, inr new) =
      let same = file_seen main.file seen (evidence_of r.candidate_digest) read new.0 in cc
  undoable_before_commit committed r main backup world seen e read other p = cc
  undoable_before_commit (other_phase x) r main backup world seen e read other p = absurd p

  -- The record is gone, and all of the transaction took place or none of it.
  abbrev pub IsFinished : Machine X J → Type 0
  IsFinished m = (m.journal ≡ no_record) × IsAtomic h o m.main m.backup m.world

  module _ (laws : Laws h o) where
    abbrev IsFound : TransitionRecord C R → Machine X J → Type 0
    IsFound r m =
        (IsSound h o m × IsOwnRecord h o r × Pending h o r.phase r m.main m.backup m.world)
        × IsTidy m.main m.backup

    pub Ends-finalize :
        (resources : Option R) (P : Machine X J → Type 0) (m : Machine X J)
        → P m
        → Ends (λ u m'. P m') P P (finalize h resources m)
    unfolding finalize
    Ends-finalize none P m p = Ends-returned p
    Ends-finalize (some resources) P m p = Ends-attempt _ m p (λ u e. p)

    Ends-recover_record :
        (app : Config) (r : TransitionRecord C R) (main : Evidence) (m : Machine X J)
        → file_evidence h m.main.file ≡ ok main
        → IsFound r m
        → Ends (λ u m'. IsFinished m') (IsSound h o) (IsSound h o) (recover_record h app r main m)
    unfolding recover_record
    Ends-recover_record app r main m read found =
        elim (Bool-cases (same_evidence main (evidence_of r.candidate_digest))) [
          | inl same ↦ rw same (
              then_attempt _ _ m found.0.0 (λ u may.
                let K : RecordFile J → Area → Area → (String → X) → Type 0 = λ j a b w.
                  (Sound h o j a b w × IsOwnRecord h o r × Pending h o r.phase r a b w)
                  × IsTidy a b in
                Ends-followed _ _
                  (Ends-weaken _ (Ends-check_committed h K r m found) (λ v m1 w. w) (λ m1 w. w.0.0)
                    (λ m1 w. w.0.0))
                  (λ v m1 w1.
                    let applied =
                      committed-applied r.phase r m1.main m1.backup m1.world
                        (not-eq-false _ (accepted _ _ may)) w1.0.0.2 in
                    let done : IsDone h o m1.main m1.backup m1.world =
                      (r, w1.0.0.1, applied, (w1.0.1.0, w1.1), (w1.0.1.1, w1.2)) in
                    Ends-followed _ _
                      (Ends-weaken _
                        (Ends-finalize r.resources
                          (λ m'. IsSound h o m' × IsDone h o m'.main m'.backup m'.world) m1
                          (w1.0.0.0, done))
                        (λ x m2 w. w) (λ m2 w. w.0) (λ m2 w. w.0))
                      (λ x m2 w2.
                        Ends-remove h o laws (IsAtomic h o) m2 w2.0 (inr w2.1) (inr w2.1)))))
          | inr other ↦ rw other (
              then_attempt _ _ m found.0.0 (λ u open_phase.
                let undoable =
                  undoable_before_commit r.phase r m.main m.backup m.world main
                    (accepted _ _ open_phase) read other found.0.2 in
                Ends-weaken _ (compensate-IsSound h o laws app r m (found.0.0, found.0.1, undoable))
                  (λ v m1 w. (w.0, inl w.1)) (λ m1 w. w) (λ m1 w. w)))
        ]

    abbrev pub IsRecovered : Bool → Machine X J → Type 0
    IsRecovered true m = IsFinished m
    IsRecovered false m = IsSound h o m

    Ends-recover_read :
        (app : Config) (x : Machine X J × Ending (TransitionRecord C R))
        → Ends
            (λ r m.
              IsSound h o m × IsOwnRecord h o r × Pending h o r.phase r m.main m.backup m.world)
            (IsSound h o)
            (IsSound h o)
            x
        → Ends IsRecovered (IsSound h o) (IsSound h o) (recover_read h app x)
    unfolding recover_read store_evidence area_at
    Ends-recover_read app (m, raised e) before = elim (Bool-cases (is_missing e)) [
      | inl missing ↦ rw missing (Ends-returned before.ended)
      | inr other ↦ rw other (Ends-raised before.ended)
    ]
    Ends-recover_read app (m, stopped) before = Ends-stopped before.ended
    Ends-recover_read app (m, returned r) before =
        let Found : RecordFile J → (String → X) → Area → Area → Type 0 =
          λ j w a b. Sound h o j a b w × IsOwnRecord h o r × Pending h o r.phase r a b w in
        let stable = λ (j : RecordFile J) (w : String → X). stable_found h o r j w in
        Ends-followed _ _
          (Ends-weaken _
            (Ends-settle_all h (OnMachine Found stable) (stable_at_main Found stable)
              (stable_at_backup Found stable) r m before.ended)
            (λ u m1 w. w) (λ m1 w. w.0) (λ m1 w. w.0))
          (λ u m1 w1. then_observe h _ _ m1 w1.0.0 w1.0.0 (λ main read.
            Ends-followed _ _ (Ends-recover_record app r main (tick m1) read w1)
              (λ v m2 w2. Ends-returned w2)))

    -- From any state that a stopped transaction can leave, whatever the disk does: a recovery that
    -- finds a record and returns has removed it, with every step of the transaction done and both
    -- files its candidate, or every resource as it was and the files the old ones or both the old
    -- store with another generation. A recovery that fails or stops leaves such a state again.
    pub recover-IsSound :
        (app : Config) (m : Machine X J)
        → IsSound h o m
        → Ends IsRecovered (IsSound h o) (IsSound h o) (recover h app m)
    unfolding recover read_transition
    recover-IsSound app m sound = Ends-recover_read app _ (
        Ends-observe h _ m sound sound (λ r e.
          let (own, pending) = Sound-record app m.journal m.main m.backup m.world r e sound in
          (sound, own, pending)))
