-- ===== src/Transition/Planned.antt =====
-- `planMetadataMutation`: its plan fits the machine that it was made on
-- (internal/manager/runtime_transition.go, runtime_transition_store.go).
use proxyscene.Common.{Option, String, [], inl, none, ok, refl, subst, ℕ, ◌<◌, ◌≡◌}
use proxyscene.Config.{Config}
use proxyscene.Store.{Store}
use proxyscene.Transition.{
  Area, Evidence, Host, Machine, TransitionRecord, applying, no_record, tick,
}
use proxyscene.Transition.Areas.{same_evidence→eq}
use proxyscene.Transition.Committed.{IsPlanned}
use proxyscene.Transition.Files.{area_at, file_evidence, store_evidence}
use proxyscene.Transition.Outcomes.{Ends, Ends-followed, Ends-returned, then_attempt, then_observe}
use proxyscene.Transition.Planning.{plan_metadata}
use proxyscene.Transition.Plans.{Ends-validate_before}
use proxyscene.Transition.Recovered.{file_seen}
use proxyscene.Transition.Refused.{next_generation_room}
use proxyscene.Transition.Restore.{AllRestored}
use proxyscene.Transition.Sound.{IsExactly, IsNewDigest, IsPrior, IsSound, Laws, Origin, names_of}
use proxyscene.Transition.Steps.{AreFresh, finished-IsSound}
use proxyscene.Transition.Writes.{Ends-highest_generation}

module _ {C R T X J : Type 0} (h : Host C R T X J) (o : Origin C R X) (laws : Laws h o) where
  -- No record on the disk, and the files and the resources as the transaction finds them.
  abbrev pub IsBase : Machine X J → Type 0
  IsBase m =
      (m.journal ≡ no_record)
      × IsExactly h o o.main_evidence m.main
      × IsExactly h o o.backup_evidence m.backup
      × AllRestored h o m.world

  pub base-IsSound : (m : Machine X J) → IsBase m → IsSound h o m
  base-IsSound m (gone, main, backup, rest) =
      finished-IsSound h o laws m (gone, inl (rest, inl (main, backup)))

  evidence_same :
      (e : Evidence) (a : Area) (seen : Evidence)
      → file_evidence h a.file ≡ ok seen
      → IsExactly h o e a
      → seen ≡ e
  evidence_same e a seen read (clean, there) =
      same_evidence→eq seen e (file_seen h o a.file seen e read there)

  module _
      (captures : (core : Option C) (resources : Option R) (n : String)
        → o.within core resources n (o.resource n) (o.resource n)) where
    -- A new record that shows the files as they are fits the machine.
    base-IsPlanned :
        (r : TransitionRecord C R) (m : Machine X J)
        → r.before_main ≡ o.main_evidence
        → r.before_backup ≡ o.backup_evidence
        → r.before ≡ o.store
        → none ≡ r.compensation
        → r.phase ≡ applying
        → AreFresh r.steps
        → IsNewDigest h o r.candidate_digest
        → names_of r.steps ≡ o.steps
        → IsBase m
        → IsPlanned h o laws r m
    base-IsPlanned r m main backup before new phase fresh digest steps
          (gone, main_there, backup_there, rest) =
        record {
          nothing_pending = gone;
          main_there = main_there;
          backup_there = backup_there;
          at_rest = rest;
          captured = captures r.core r.resources;
          own = record {
            same_main = main;
            same_backup = backup;
            same_before = before;
            prior = subst (IsPrior o.store) new tt;
            new_digest = digest;
            own_steps = steps;
          };
          first_phase = phase;
          fresh = fresh;
        }

    -- Planning only reads, and its plan fits the machine.
    pub Ends-plan_metadata :
        (app : Config) (before wanted : Store) (m : Machine X J)
        → before ≡ o.store
        → [] ≡ o.steps
        → ((g : ℕ)
            → before.generation < g
            → o.candidate (record wanted { generation = g; stored_config = before.stored_config }))
        → IsBase m
        → Ends
            (λ p m'. IsPlanned h o laws p.receipt m' × o.candidate p.execution)
            IsBase
            IsBase
            (plan_metadata h app before wanted m)
    unfolding plan_metadata store_evidence area_at
    Ends-plan_metadata app before wanted m known stepless accepts base =
        then_observe h _ _ m base base (λ main e.
          then_observe h _ _ (tick m) base base (λ backup e1.
            Ends-followed _ _
              (Ends-validate_before h IsBase (λ m' q. q) before main backup (tick (tick m)) base)
              (λ u m1 b1.
                Ends-followed _ _ (Ends-highest_generation h IsBase (λ m' q. q) m1 b1)
                  (λ highest m2 b2. then_attempt _ _ m2 b2 (λ generation e2.
                    then_attempt _ _ m2 b2 (λ text e3. then_attempt _ _ m2 b2 (λ v e4.
                      let fits = accepts generation (next_generation_room h highest before e2).0 in
                      Ends-returned (
                        base-IsPlanned _ m2 (evidence_same o.main_evidence m.main main e base.1)
                            (evidence_same o.backup_evidence m.backup backup e1 base.2) known refl
                            refl tt (_, fits, text, e3, refl) stepless b2,
                        fits,
                      ))))))))
