-- ===== src/Transition/Compensated.antt =====
-- `compensateRuntimeTransition`: a compensation that returns has restored everything, and one that
-- does not keeps the invariant (internal/manager/runtime_transition.go).
use proxyscene.Common.{
  Bool, List, String, [], and-eq-true, false, inl, inr, ok, refl, some, subst, sym, true, ℕ, ◌∷◌,
  ◌≡◌,
}
use proxyscene.Config.{Config}
use proxyscene.Store.{Store}
use proxyscene.Transition.{
  Area, Evidence, Host, Machine, RecordFile, Step, TransitionRecord, compensating, no_record, tick,
  ◌▷◌,
}
use proxyscene.Transition.Areas.{allows_first, allows_later}
use proxyscene.Transition.Compensate.{
  check_file, compensate, finish_compensation, finish_files, rejoin, reversed, write_compensation,
}
use proxyscene.Transition.Files.{
  allows, area_at, backup_path, encoded_store, evidence_of, main_path, store_evidence,
}
use proxyscene.Transition.Finish.{
  Ends-reserved, Ends-swap_backup, Ends-swap_main, IsUndone, evidence_of_text, with_compensation,
}
use proxyscene.Transition.Outcomes.{Ends, Ends-followed, Ends-weaken, then_attempt, then_observe}
use proxyscene.Transition.Receipt.{remove_transition}
use proxyscene.Transition.Restore.{AllRestored, Ends-restore_steps}
use proxyscene.Transition.Settle.{Ends-settle_all}
use proxyscene.Transition.Sound.{
  FileIn, IsExactly, IsOwnRecord, IsPrior, IsReady, IsRestored, IsSound, IsTidy, Laws, Origin,
  Sound, UndoableOf, touched,
}
use proxyscene.Transition.Stable.{OnMachine, stable_at_backup, stable_at_main, stable_ready}
use proxyscene.Transition.Writes.{
  Ends-check_before_compensation, Ends-check_file, Ends-log, Ends-remove, logged-IsSound, seen_file,
}

pub rejoin-reversed : (steps onto : List Step) → rejoin (reversed steps onto) [] ≡ rejoin onto steps
rejoin-reversed [] onto = refl
rejoin-reversed (s ∷ rest) onto = rejoin-reversed rest (s ∷ onto)

module _ {C R T X J : Type 0} (h : Host C R T X J) (o : Origin C R X) (laws : Laws h o) where
  -- The record is gone, and all is as it was.
  abbrev pub IsUndoneForGood : Machine X J → Type 0
  IsUndoneForGood m = (m.journal ≡ no_record) × IsRestored h o m.main m.backup m.world

  exactly-IsRestored :
      (st : Store) (text : List ℕ) (main backup : Area) (world : String → X)
      → encoded_store h st ≡ ok text
      → IsPrior o.store (some st)
      → AllRestored h o world
      → IsExactly h o (evidence_of (h.content_digest text)) main
      → IsExactly h o (evidence_of (h.content_digest text)) backup
      → IsRestored h o main backup world
  exactly-IsRestored st text main backup world e (g, prior) restored m b =
      (restored, inr (g, text, subst (λ s. encoded_store h s ≡ ok text) prior e, m, b))

  -- The two files hold the compensation, which is checked before the record goes.
  Ends-last :
      (r : TransitionRecord C R) (st : Store) (text : List ℕ) (m : Machine X J)
      → encoded_store h st ≡ ok text
      → IsUndone h o laws (with_compensation h o laws r st) m
      → Ends
          (λ u m'. IsUndoneForGood m')
          (IsSound h o)
          (IsSound h o)
          ((check_file h main_path (evidence_of (h.content_digest text)) ▷ λ x.
              check_file h backup_path (evidence_of (h.content_digest text)) ▷ λ y.
              remove_transition h)
            m)
  unfolding area_at
  Ends-last r st text m e u =
      let next = with_compensation h o laws r st in
      let expected = evidence_of (h.content_digest text) in
      let Undone = IsUndone h o laws next in
      let sound : (m' : Machine X J) → Undone m' → IsSound h o m' =
        λ m' w. logged-IsSound h o laws next m' w.0 in
      let Main : Machine X J → Type 0 =
        λ m'. Undone m' × FileIn h.content_digest (expected ∷ []) m'.main.file in
      Ends-followed _ _
        (Ends-weaken _ (Ends-check_file h Undone (λ m' w. w) main_path expected m u) (λ v m1 w. w)
          sound sound)
        (λ v m1 w1.
          Ends-followed _ _
            (Ends-weaken _ (Ends-check_file h Main (λ m' w. w) backup_path expected m1 w1)
              (λ x m2 w. w) (λ m2 w. sound m2 w.0) (λ m2 w. sound m2 w.0))
            (λ x m2 w2.
              let l = w2.0.0.0 in
              let done =
                exactly-IsRestored st text m2.main m2.backup m2.world e l.1.prior w2.0.0.2
                  (l.3.0, w2.0.1) (l.3.1, w2.1) in
              Ends-remove h o laws (IsRestored h o) m2 (sound m2 w2.0.0) done (inl done)))

  Ends-write_compensation :
      (r : TransitionRecord C R) (main backup : Evidence) (st : Store) (m : Machine X J)
      → IsUndone h o laws (with_compensation h o laws r st) m
      → Ends
          (λ u m'. IsUndoneForGood m')
          (IsSound h o)
          (IsSound h o)
          (write_compensation h r main backup st m)
  unfolding write_compensation
  Ends-write_compensation r main backup st m u =
      let next = with_compensation h o laws r st in
      let Undone = IsUndone h o laws next in
      let sound : (m' : Machine X J) → Undone m' → IsSound h o m' =
        λ m' w. logged-IsSound h o laws next m' w.0 in
      then_attempt _ _ m (sound m u) (λ text e.
        let expected = evidence_of (h.content_digest text) in
        let same = sym (evidence_of_text h o laws st text e) in
        let fits_main =
          subst (λ l. allows (o.main_evidence ∷ l) expected ≡ true) same
            (allows_later _ _ _ (allows_first expected [])) in
        let fits_backup =
          subst
            (λ l. allows (o.backup_evidence ∷ evidence_of r.candidate_digest ∷ l) expected ≡ true)
            same (allows_later _ _ _ (allows_later _ _ _ (allows_first expected []))) in
        Ends-followed _ _ (Ends-swap_backup h o laws next _ backup text m fits_backup u) (λ v m1 u1.
          Ends-followed _ _
            (Ends-weaken _ (Ends-check_before_compensation h Undone (λ m' w. w) next m1 u1)
              (λ x m2 w. w) sound sound)
            (λ x m2 u2.
              Ends-followed _ _ (Ends-swap_main h o laws next _ main text m2 fits_main u2)
                (λ y m3 u3. Ends-last r st text m3 e u3))))

  Ends-finish_files :
      (b : Bool) (app : Config) (r : TransitionRecord C R) (main backup : Evidence)
      (m : Machine X J)
      → (b ≡ true
          → FileIn h.content_digest (r.before_main ∷ []) m.main.file
            × FileIn h.content_digest (r.before_backup ∷ []) m.backup.file)
      → IsUndone h o laws r m
      → Ends
          (λ u m'. IsUndoneForGood m')
          (IsSound h o)
          (IsSound h o)
          (finish_files h b app r main backup m)
  unfolding finish_files
  Ends-finish_files true app r main backup m same (l, opened, restored) =
      let d = h.content_digest in
      let (main_same, backup_same) = same refl in
      let done : IsRestored h o m.main m.backup m.world = (
        restored,
        inl (
          (l.3.0, subst (λ e. FileIn d (e ∷ []) m.main.file) l.1.same_main main_same),
          (l.3.1, subst (λ e. FileIn d (e ∷ []) m.backup.file) l.1.same_backup backup_same),
        ),
      ) in
      Ends-remove h o laws (IsRestored h o) m (logged-IsSound h o laws r m l) done (inl done)
  Ends-finish_files false app r main backup m same u =
      Ends-followed _ _ (Ends-reserved h o laws app r r.compensation m refl u)
        (λ st m1 u1. Ends-write_compensation r main backup st m1 u1)

  Ends-finish_compensation :
      (app : Config) (r : TransitionRecord C R) (m : Machine X J)
      → IsUndone h o laws r m
      → Ends
          (λ u m'. IsUndoneForGood m')
          (IsSound h o)
          (IsSound h o)
          (finish_compensation h app r m)
  unfolding finish_compensation store_evidence area_at
  Ends-finish_compensation app r m u =
      let Undone = IsUndone h o laws r in
      let sound : (m' : Machine X J) → Undone m' → IsSound h o m' =
        λ m' w. logged-IsSound h o laws r m' w.0 in
      Ends-followed _ _
        (Ends-weaken _ (Ends-check_before_compensation h Undone (λ m' w. w) r m u) (λ v m1 w. w)
          sound sound)
        (λ v m1 u1. then_observe h _ _ m1 (sound m1 u1) (sound m1 u1) (λ main e.
          then_observe h _ _ (tick m1) (sound m1 u1) (sound m1 u1) (λ backup e1.
            Ends-finish_files _ app r main backup (tick (tick m1))
              (λ both.
                let (p, q) = and-eq-true _ _ both in
                (
                  seen_file h m1.main.file main r.before_main e p,
                  seen_file h m1.backup.file backup r.before_backup e1 q,
                ))
              u1)))

  -- Behind a compensation that returns, the record is gone, every resource is as it was, and the
  -- files are the old ones, or both the old store with another generation. Behind one that fails or
  -- stops, whatever the disk does, the invariant stands. It may start with any true record on the
  -- disk and with files moved aside.
  pub compensate-IsSound :
      (app : Config) (r : TransitionRecord C R) (m : Machine X J)
      → IsReady h o r m
      → Ends (λ u m'. IsUndoneForGood m') (IsSound h o) (IsSound h o) (compensate h app r m)
  unfolding compensate touched
  compensate-IsSound app r m ready =
      let Ready : RecordFile J → (String → X) → Area → Area → Type 0 =
        λ j w a b. Sound h o j a b w × IsOwnRecord h o r × UndoableOf h o r a b w in
      let stable = λ (j : RecordFile J) (w : String → X). stable_ready h o r j w in
      let Tidied : Machine X J → Type 0 =
        λ m'. OnMachine Ready stable m' × IsTidy m'.main m'.backup in
      Ends-followed _ _
        (Ends-weaken _
          (Ends-settle_all h (OnMachine Ready stable) (stable_at_main Ready stable)
            (stable_at_backup Ready stable) r m ready)
          (λ u m1 w. w) (λ m1 w. w.0) (λ m1 w. w.0))
        (λ u m1 w1.
          Ends-followed _ _
            (Ends-weaken _ (Ends-check_before_compensation h Tidied (λ m' w. w) r m1 w1)
              (λ v m2 w. w) (λ m2 w. w.0.0) (λ m2 w. w.0.0))
            (λ v m2 w2.
              let r1 : TransitionRecord C R = record r { phase = compensating } in
              Ends-followed _ _
                (Ends-weaken _
                  (Ends-log h o laws (λ a b w. Unit) app r1 m2 w2.0.0 tt w2.0.1 w2.0.2 w2.1)
                  (λ x m3 w. w.0) (λ m3 w. w.0) (λ m3 w. w.0))
                (λ x m3 l.
                  Ends-followed _ _
                    (Ends-restore_steps h o laws app _ r1 (reversed r1.steps []) [] m3 refl
                      (sym (rejoin-reversed r1.steps [])) (λ n. no_step n) l)
                    (λ r2 m4 w4. Ends-finish_compensation app r2 m4 w4))))
    where
      no_step : (n : String) → touched n [] ≡ false
      no_step n = refl
