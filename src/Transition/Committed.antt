-- ===== src/Transition/Committed.antt =====
-- `commitPlannedStoreMutation` from its plan on (internal/manager/runtime_transition.go).
use proxyscene.Common.{String, [], contains, false, inl, inr, refl, subst, sym, ◌∷◌, ◌≡◌}
use proxyscene.Config.{Config}
use proxyscene.Store.{Store}
use proxyscene.Transition.{
  Area, Host, Machine, MutationPlan, RecordFile, TransitionRecord, applying, committed, committing,
  no_record, record_text,
}
use proxyscene.Transition.Areas.{HeldArea-more, exactly_held, first_allowed}
use proxyscene.Transition.Commit.{commit_store, settle_commit}
use proxyscene.Transition.Outcomes.{
  Ends, Ends-attempt, Ends-followed, Ends-returned, Ends-weaken, then_attempt,
}
use proxyscene.Transition.Receipt.{write_transition}
use proxyscene.Transition.Recovered.{Ends-finalize}
use proxyscene.Transition.Restore.{Undoable-open, logged_undoable}
use proxyscene.Transition.Sound.{
  AllApplied, HeldArea, IsDone, IsExactly, IsLogged, IsNewDigest, IsOwnRecord, IsReady, IsSound,
  IsTidy, Laws, NewFiles, Origin, UndoableOf,
}
use proxyscene.Transition.Steps.{
  AreFresh, Ends-or_compensate, IsReady-of, IsRunning, finished-IsSound, open_of,
}
use proxyscene.Transition.Stored.{
  Ends-or_confirm, Ends-save_planned, IsPoised, IsStored, poised_waits, stored_waits,
  waiting-IsSound,
}
use proxyscene.Transition.Writes.{
  Ends-check_committed, Ends-check_unchanged, Ends-log, Ends-remove, logged-IsSound,
}

module _ {C R T X J : Type 0} (h : Host C R T X J) (o : Origin C R X) (laws : Laws h o) where
  -- The record is gone, and the candidate of the transaction is in both files, its steps done.
  abbrev pub IsCommitted : Machine X J → Type 0
  IsCommitted m = (m.journal ≡ no_record) × IsDone h o m.main m.backup m.world

  Ends-settle_commit :
      (p : MutationPlan C R T) (r : TransitionRecord C R) (st : Store) (m : Machine X J)
      → IsStored h o laws r m
      → Ends (λ x m'. IsCommitted m') (IsSound h o) (IsSound h o) (settle_commit h p r st m)
  unfolding settle_commit
  Ends-settle_commit p r st m stored =
      let r1 : TransitionRecord C R = record r { phase = committed } in
      let sound : (m' : Machine X J) → IsStored h o laws r m' → IsSound h o m' =
        λ m' w. waiting-IsSound h o laws r m' (stored_waits h o laws r m' w) in
      let K : RecordFile J → Area → Area → (String → X) → Type 0 = λ j a b w.
        ((j ≡ record_text (h.write_record r))
          × IsOwnRecord h o r
          × (r.phase ≡ committing)
          × AllApplied h o r.core r.resources r.steps w)
        × NewFiles h o r.candidate_digest a b
        × IsTidy a b in
      let K1 : RecordFile J → Area → Area → (String → X) → Type 0 = λ j a b w.
        (j ≡ record_text (h.write_record r1))
        × IsOwnRecord h o r1
        × (AllApplied h o r.core r.resources r.steps w × NewFiles h o r.candidate_digest a b)
        × IsTidy a b in
      let sound1 : (m' : Machine X J) → IsLogged h o r1 m' → IsSound h o m' =
        λ m' w. logged-IsSound h o laws r1 m' w in
      Ends-followed _ _
        (Ends-weaken _ (Ends-check_committed h K r m stored) (λ u m1 w. w.0) (λ m1 w. sound m1 w)
          (λ m1 w. sound m1 w))
        (λ u m1 w1. then_attempt _ _ m1 (sound m1 w1) (λ v same.
          Ends-followed _ _
            (Ends-weaken _
              (Ends-log h o laws (λ a b w. Unit) p.candidate_app r1 m1 (sound m1 w1) tt w1.0.1
                (w1.0.3, w1.1) w1.2)
              (λ x m2 w. w.0) (λ m2 w. w.0) (λ m2 w. w.0))
            (λ x m2 w2.
              Ends-followed _ _
                (Ends-weaken _ (Ends-check_committed h K1 r1 m2 w2) (λ y m3 w. w)
                  (λ m3 w. sound1 m3 w) (λ m3 w. sound1 m3 w))
                (λ y m3 w3.
                  let done : IsDone h o m3.main m3.backup m3.world =
                    (r1, w3.0.1, w3.0.2.0, (w3.0.3.0, w3.1), (w3.0.3.1, w3.2)) in
                  Ends-followed _ _
                    (Ends-weaken _
                      (Ends-finalize h o laws r1.resources
                        (λ m'. IsSound h o m' × IsDone h o m'.main m'.backup m'.world) m3
                        (sound1 m3 w3.0, done))
                      (λ z m4 w. w) (λ m4 w. w.0) (λ m4 w. w.0))
                    (λ z m4 w4.
                      Ends-followed _ _ (Ends-remove h o laws (IsDone h o) m4 w4.0 w4.1 (inr w4.1))
                        (λ a m5 w5. Ends-returned w5))))))

  -- The record in the phase of the commit, with the store that the steps left.
  Ends-poise :
      (app : Config) (r : TransitionRecord C R) (st : Store) (digest : String) (m : Machine X J)
      → IsRunning h o laws r r.steps m
      → IsNewDigest h o digest
      → Ends
          (λ u m'.
            IsPoised h o laws
              (record r { candidate = st; candidate_digest = digest; phase = committing })
              m')
          (IsReady h o (record r { candidate = st; candidate_digest = digest; phase = committing }))
          (IsSound h o)
          (write_transition h app
            (record r { candidate = st; candidate_digest = digest; phase = committing })
            m)
  Ends-poise app r st digest m (l, phase, backup, applied) new =
      let r1 : TransitionRecord C R = record r {
        candidate = st;
        candidate_digest = digest;
        phase = committing;
      } in
      let own : IsOwnRecord h o r1 = record {
        same_main = l.1.same_main;
        same_backup = l.1.same_backup;
        same_before = l.1.same_before;
        prior = l.1.prior;
        new_digest = new;
        own_steps = l.1.own_steps;
      } in
      let u = logged_undoable h o r m (open_of h o laws phase) l in
      let undoable : UndoableOf h o r1 m.main m.backup m.world = record {
        main_held = u.main_held;
        backup_held =
            HeldArea-more h.content_digest _ _ (λ e q. first_allowed o.backup_evidence _ e q)
              m.backup backup;
        slots = u.slots;
      } in
      Ends-weaken _
        (Ends-log h o laws
          (λ a b w. UndoableOf h o r1 a b w × AllApplied h o r.core r.resources r.steps w) app r1 m
          (logged-IsSound h o laws r m l) (undoable, applied) own (applied, inl undoable) l.3)
        (λ v m1 w. ((w.0.0, w.0.1, refl, w.1.1), w.1.0, w.0.3)) (λ m1 w. (w.0, own, w.1.0))
        (λ m1 w. w.0)

  pub Ends-commit_store :
      (app : Config) (p : MutationPlan C R T) (m : Machine X J)
      → IsRunning h o laws p.receipt p.receipt.steps m
      → o.candidate p.execution
      → Ends (λ x m'. IsCommitted m') (IsSound h o) (IsSound h o) (commit_store h app p m)
  unfolding commit_store
  Ends-commit_store app p m runs next =
      let r : TransitionRecord C R = record p.receipt { candidate = p.execution } in
      let ready : IsReady h o r m = IsReady-of h o laws p.receipt m runs.0 runs.1 in
      Ends-followed _ _
        (Ends-or_compensate h o laws
          (λ text m'.
            IsRunning h o laws p.receipt p.receipt.steps m'
            × IsNewDigest h o (h.content_digest text))
          app r _ (Ends-attempt _ m ready (λ text e. (runs, (p.execution, next, text, e, refl)))))
        (λ text m1 w1.
          let r1 : TransitionRecord C R = record r {
            candidate_digest = h.content_digest text;
            phase = committing;
          } in
          let sound : (m' : Machine X J) → IsPoised h o laws r1 m' → IsSound h o m' =
            λ m' w. waiting-IsSound h o laws r1 m' (poised_waits h o laws r1 m' w) in
          Ends-followed _ _
            (Ends-or_compensate h o laws (λ u m'. IsPoised h o laws r1 m') app r1 _
              (Ends-poise app p.receipt p.execution (h.content_digest text) m1 w1.0 w1.1))
            (λ u m2 w2.
              Ends-followed _ _
                (Ends-weaken _ (Ends-check_unchanged h (IsPoised h o laws r1) (λ m' q. q) r1 m2 w2)
                  (λ v m3 w. w) sound sound)
                (λ v m3 w3.
                  Ends-followed _ _
                    (Ends-or_confirm h o laws app r1 _ (Ends-save_planned h o laws _ r1 m3 w3))
                    (λ st m4 w4. Ends-settle_commit p r1 st m4 w4))))

  -- A plan for this machine: its record is new, the files and the resources are as it says, no
  -- other record is on the disk, and its steps have not run.
  pub record IsPlanned (r : TransitionRecord C R) (m : Machine X J) : Type 0 where
    pub nothing_pending : m.journal ≡ no_record
    pub main_there : IsExactly h o o.main_evidence m.main
    pub backup_there : IsExactly h o o.backup_evidence m.backup
    pub at_rest : (n : String) → m.world n ≡ o.resource n
    pub captured : (n : String) → o.within r.core r.resources n (o.resource n) (o.resource n)
    pub own : IsOwnRecord h o r
    pub first_phase : r.phase ≡ applying
    pub fresh : AreFresh r.steps

  pub planned-Undoable :
      (r : TransitionRecord C R) (m : Machine X J)
      → IsPlanned r m
      → UndoableOf h o r m.main m.backup m.world
  planned-Undoable r m p =
      let d = h.content_digest in
      record {
        main_held = exactly_held d o.main_evidence _ m.main p.main_there.0 p.main_there.1;
        backup_held = exactly_held d o.backup_evidence _ m.backup p.backup_there.0 p.backup_there.1;
        slots = λ n. (
          subst (λ x. o.within r.core r.resources n (o.resource n) x) (sym (p.at_rest n))
              (p.captured n),
          λ q. p.at_rest n,
        );
      }

  pub planned-IsSound : (r : TransitionRecord C R) (m : Machine X J) → IsPlanned r m → IsSound h o m
  planned-IsSound r m p =
      finished-IsSound h o laws m
        (p.nothing_pending, inl (p.at_rest, inl (p.main_there, p.backup_there)))

  -- The record of the plan is written before anything else.
  pub Ends-announce :
      (app : Config) (r : TransitionRecord C R) (m : Machine X J)
      → IsPlanned r m
      → Ends
          (λ u m'. IsRunning h o laws r [] m')
          (IsSound h o)
          (IsSound h o)
          (write_transition h app r m)
  Ends-announce app r m p =
      let u = planned-Undoable r m p in
      let backup =
        exactly_held h.content_digest o.backup_evidence [] m.backup p.backup_there.0
          p.backup_there.1 in
      Ends-weaken _
        (Ends-log h o laws
          (λ a b w.
            HeldArea h.content_digest (o.backup_evidence ∷ []) b
            × ((name : String) → contains o.steps name ≡ false → w name ≡ o.resource name))
          app r m (planned-IsSound r m p) (backup, λ n out. p.at_rest n) p.own
          (Undoable-open h o r.phase r m.main m.backup m.world (open_of h o laws p.first_phase) u)
          (p.main_there.0, p.backup_there.0))
        (λ v m1 w. (w.0, p.first_phase, w.1.0, (tt, w.1.1))) (λ m1 w. w.0) (λ m1 w. w.0)
