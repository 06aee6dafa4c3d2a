-- ===== src/Transition/Stored.antt =====
-- `savePlannedRuntimeStore` and what follows its failure
-- (internal/manager/runtime_transition.go, runtime_transition_store.go).
use proxyscene.Common.{
  Bool-cases, Error, List, [], accepted, ap, eq_iff, inl, inr, ok, refl, subst, sym, true, ℕ, ◌∷◌,
  ◌≡◌, ◌⊎◌,
}
use proxyscene.Config.{Config}
use proxyscene.Store.{Store}
use proxyscene.Transition.{
  Ending, Evidence, Host, Machine, Stage, TransitionRecord, aside, committing, complete, linked,
  raised, record_text, returned, stopped, tick, untouched,
}
use proxyscene.Transition.Areas.{
  allows_first, allows_later, cleaned, file_held, moved-Held, swapped_held,
}
use proxyscene.Transition.Commit.{confirm, or_confirm, save_planned}
use proxyscene.Transition.Compensate.{is_committed}
use proxyscene.Transition.Compensated.{compensate-IsSound}
use proxyscene.Transition.Files.{
  allows, area_at, backup_path, evidence_of, file_evidence, main_path, same_evidence,
  store_evidence, swapped, with_area, write_store_cas,
}
use proxyscene.Transition.Outcomes.{
  Ends, Ends-followed, Ends-observe, Ends-raised, Ends-returned, Ends-stopped, Ends-weaken,
  then_attempt, then_observe,
}
use proxyscene.Transition.Recovered.{undoable_before_commit}
use proxyscene.Transition.Sound.{
  AllApplied, FileIn, IsOwnRecord, IsSound, IsTidy, Laws, NewFiles, Origin, Pending, UndoableOf,
  backup_list,
}
use proxyscene.Transition.Steps.{Ends-after_compensation}
use proxyscene.Transition.Writes.{
  Ends-check_unchanged, Ends-write_store_cas, not-eq-false, seen_file, truth-IsSound,
}

module _ {C R T X J : Type 0} (h : Host C R T X J) (o : Origin C R X) (laws : Laws h o) where
  -- Around the commit: the record is on the disk in the phase of the commit, every step succeeded,
  -- and the files are the old ones or the candidate.
  abbrev pub IsWaiting : TransitionRecord C R → Machine X J → Type 0
  IsWaiting r m =
      (m.journal ≡ record_text (h.write_record r))
      × IsOwnRecord h o r
      × (r.phase ≡ committing)
      × AllApplied h o r.core r.resources r.steps m.world
      × (UndoableOf h o r m.main m.backup m.world ⊎ NewFiles h o r.candidate_digest m.main m.backup)

  waiting-Pending :
      (r : TransitionRecord C R) (m : Machine X J)
      → IsWaiting r m
      → Pending h o r.phase r m.main m.backup m.world
  waiting-Pending r m (j, own, phase, applied, files) =
      subst (λ x. Pending h o x r m.main m.backup m.world) (sym phase) (applied, files)

  pub waiting-IsSound : (r : TransitionRecord C R) (m : Machine X J) → IsWaiting r m → IsSound h o m
  waiting-IsSound r m w = truth-IsSound h o laws r m w.0 w.1 (waiting-Pending r m w)

  -- The same with the old files and nothing moved aside.
  abbrev pub IsPoised : TransitionRecord C R → Machine X J → Type 0
  IsPoised r m =
      ((m.journal ≡ record_text (h.write_record r))
        × IsOwnRecord h o r
        × (r.phase ≡ committing)
        × AllApplied h o r.core r.resources r.steps m.world)
      × UndoableOf h o r m.main m.backup m.world
      × IsTidy m.main m.backup

  -- The same with the new ones.
  abbrev pub IsStored : TransitionRecord C R → Machine X J → Type 0
  IsStored r m =
      ((m.journal ≡ record_text (h.write_record r))
        × IsOwnRecord h o r
        × (r.phase ≡ committing)
        × AllApplied h o r.core r.resources r.steps m.world)
      × NewFiles h o r.candidate_digest m.main m.backup
      × IsTidy m.main m.backup

  pub poised_waits : (r : TransitionRecord C R) (m : Machine X J) → IsPoised r m → IsWaiting r m
  poised_waits r m ((j, own, phase, applied), u, tidy) = (j, own, phase, applied, inl u)

  pub stored_waits : (r : TransitionRecord C R) (m : Machine X J) → IsStored r m → IsWaiting r m
  stored_waits r m ((j, own, phase, applied), new, tidy) = (j, own, phase, applied, inr new)

  -- The swap of the backup, which the record allows.
  Ends-store_backup :
      (r : TransitionRecord C R) (seen : Evidence) (text : List ℕ) (m : Machine X J)
      → h.content_digest text ≡ r.candidate_digest
      → IsPoised r m
      → Ends
          (λ u m'. IsPoised r m')
          (IsWaiting r)
          (IsSound h o)
          (write_store_cas h backup_path seen text m)
  unfolding with_area area_at
  Ends-store_backup r seen text m same ((j, own, phase, applied), u, tidy) =
      let fits : allows (backup_list h o r.candidate_digest r.compensation)
            (evidence_of (h.content_digest text))
          ≡ true =
        subst
          (λ d. allows (backup_list h o r.candidate_digest r.compensation) (evidence_of d) ≡ true)
          (sym same)
          (allows_later o.backup_evidence (evidence_of r.candidate_digest) _
            (allows_first (evidence_of r.candidate_digest) _)) in
      let moved : (s : Stage) → UndoableOf h o r m.main (swapped text m.backup s) m.world = λ s.
        record {
          main_held = u.main_held;
          backup_held = swapped_held h.content_digest _ text m.backup s fits tidy.1 u.backup_held;
          slots = u.slots;
        } in
      let part : (s : Stage) → IsWaiting r (record m { backup = swapped text m.backup s }) =
        λ s. (j, own, phase, applied, inl (moved s)) in
      let sound : (s : Stage) → IsSound h o (record m { backup = swapped text m.backup s }) =
        λ s. waiting-IsSound r (record m { backup = swapped text m.backup s }) (part s) in
      let still : IsWaiting r m = (j, own, phase, applied, inl u) in
      Ends-write_store_cas h backup_path seen text m tidy.1 still (waiting-IsSound r m still) part
        sound ((j, own, phase, applied), moved complete, (tidy.0, cleaned text m.backup))

  -- The swap of the main file is the commit.
  Ends-store_main :
      (r : TransitionRecord C R) (seen : Evidence) (text : List ℕ) (m : Machine X J)
      → h.content_digest text ≡ r.candidate_digest
      → FileIn h.content_digest (evidence_of r.candidate_digest ∷ []) m.backup.file
      → IsPoised r m
      → Ends
          (λ u m'. IsStored r m')
          (IsWaiting r)
          (IsSound h o)
          (write_store_cas h main_path seen text m)
  unfolding with_area area_at swapped
  Ends-store_main r seen text m same there ((j, own, phase, applied), u, tidy) =
      let new : allows (evidence_of r.candidate_digest ∷ []) (evidence_of (h.content_digest text))
          ≡ true =
        subst (λ d. allows (evidence_of r.candidate_digest ∷ []) (evidence_of d) ≡ true) (sym same)
          (allows_first (evidence_of r.candidate_digest) []) in
      let still : IsWaiting r m = (j, own, phase, applied, inl u) in
      Ends-write_store_cas h main_path seen text m tidy.0 still (waiting-IsSound r m still)
        (part new)
        (λ s.
          waiting-IsSound r (record (tick (tick m)) { main = swapped text m.main s }) (part new s))
        ((j, own, phase, applied), (new, there, tidy.1), (refl, tidy.1))
    where
      part :
          allows (evidence_of r.candidate_digest ∷ []) (evidence_of (h.content_digest text)) ≡ true
          → (s : Stage) → IsWaiting r (record (tick (tick m)) { main = swapped text m.main s })
      part new untouched = (j, own, phase, applied, inl u)
      part new aside = (
        j,
        own,
        phase,
        applied,
        inl (record {
          main_held =
              moved-Held h.content_digest _ m.main.file
                (file_held h.content_digest _ m.main tidy.0 u.main_held);
          backup_held = u.backup_held;
          slots = u.slots;
        }),
      )
      part new linked = (j, own, phase, applied, inr (new, there, tidy.1))
      part new complete = (j, own, phase, applied, inr (new, there, tidy.1))

  pub Ends-save_planned :
      (st : Store) (r : TransitionRecord C R) (m : Machine X J)
      → IsPoised r m
      → Ends (λ s m'. IsStored r m') (IsWaiting r) (IsSound h o) (save_planned h st r m)
  unfolding save_planned store_evidence area_at
  Ends-save_planned st r m poised =
      let waits = poised_waits r m poised in
      let sound : (m' : Machine X J) → IsPoised r m' → IsSound h o m' =
        λ m' w. waiting-IsSound r m' (poised_waits r m' w) in
      then_attempt _ _ m waits (λ u room. then_attempt _ _ m waits (λ text encoded.
        then_attempt _ _ m waits (λ v fixed.
          let same =
            (eq_iff (h.content_digest text) r.candidate_digest).0
              (not-eq-false _ (accepted _ _ fixed)) in
          Ends-followed _ _
            (Ends-weaken _ (Ends-check_unchanged h (IsPoised r) (λ m' q. q) r m poised)
              (λ w m1 q. q) (poised_waits r) sound)
            (λ w m1 q1.
              Ends-followed _ _ (Ends-store_backup r r.before_backup text m1 same q1) (λ x m2 q2.
                then_observe h _ _ m2 (poised_waits r m2 q2) (sound m2 q2) (λ backup read.
                  then_attempt _ _ (tick m2) (poised_waits r m2 q2) (λ y there.
                    let new =
                      seen_file h m2.backup.file backup (evidence_of r.candidate_digest) read
                        (not-eq-false _ (accepted _ _ there)) in
                    Ends-followed _ _ (Ends-store_main r r.before_main text (tick m2) same new q2)
                      (λ z m3 q3. Ends-returned q3))))))))

  -- Where the commit failed, the compensation runs only if the main file is not the candidate.
  Ends-confirm :
      (app : Config) (r : TransitionRecord C R) (e : Error) (m : Machine X J)
      → IsWaiting r m
      → Ends
          (λ s m'. IsStored r m')
          (IsSound h o)
          (IsSound h o)
          (confirm h app r e (store_evidence h main_path m))
  unfolding store_evidence area_at confirm
  Ends-confirm app r e m waits = by_read _ (
      Ends-observe h _ m (waiting-IsSound r m waits) (waiting-IsSound r m waits)
        (λ main read. (waits, read)))
    where
      by_read :
          (x : Machine X J × Ending Evidence)
          → Ends
              (λ main m'. IsWaiting r m' × (file_evidence h m'.main.file ≡ ok main))
              (IsSound h o)
              (IsSound h o)
              x
          → Ends (λ s m'. IsStored r m') (IsSound h o) (IsSound h o) (confirm h app r e x)
      by_read (m1, raised f) y = Ends-raised y.ended
      by_read (m1, stopped) y = Ends-stopped y.ended
      by_read (m1, returned main) y =
          elim (Bool-cases (same_evidence main (evidence_of r.candidate_digest))) [
            | inl same ↦ rw same (Ends-raised (waiting-IsSound r m1 y.ended.0))
            | inr other ↦ rw other (
                Ends-after_compensation h o laws e _ (
                  compensate-IsSound h o laws app r m1 (
                    waiting-IsSound r m1 y.ended.0,
                    y.ended.0.1,
                    undoable_before_commit h o r.phase r m1.main m1.backup m1.world main
                        (ap is_committed y.ended.0.2) y.ended.1 other
                        (waiting-Pending r m1 y.ended.0),
                  )))
          ]

  pub Ends-or_confirm :
      (app : Config) (r : TransitionRecord C R) (x : Machine X J × Ending Store)
      → Ends (λ s m'. IsStored r m') (IsWaiting r) (IsSound h o) x
      → Ends (λ s m'. IsStored r m') (IsSound h o) (IsSound h o) (or_confirm h app r x)
  unfolding or_confirm
  Ends-or_confirm app r (m, returned st) y = Ends-returned y.ended
  Ends-or_confirm app r (m, raised e) y = Ends-confirm app r e m y.ended
  Ends-or_confirm app r (m, stopped) y = Ends-stopped y.ended
