-- ===== src/Transition/Generations.antt =====
-- The generation of a planned candidate (internal/manager/runtime_transition.go).
use proxyscene.Common.{String, arith, ok, subst, ℕ, ℤ, ◌-◌, ◌<◌, ◌≡◌, ◌≤◌}
use proxyscene.Config.{Config}
use proxyscene.Store.{Store}
use proxyscene.Store.Generation.{IsFileBelow, below_trans, highest_below}
use proxyscene.Store.Persist.{FileState, highest_store_generation, max_generation}
use proxyscene.Transition.{Host, Machine, MutationPlan, tick}
use proxyscene.Transition.Compensate.{highest_generation}
use proxyscene.Transition.Files.{area_at, store_evidence}
use proxyscene.Transition.Outcomes.{Ends, Ends-followed, Ends-returned, then_attempt, then_observe}
use proxyscene.Transition.Planning.{
  SyncMode, next_generation, plan_metadata, plan_mutation, plan_runtime, sync_all, sync_dev,
  sync_global, sync_none, sync_telegram, sync_xray,
}
use proxyscene.Transition.Plans.{Ends-planned_telegram, Ends-validate_before, Ends-with_dev_user}
use proxyscene.Transition.Refused.{next_generation_room}
use proxyscene.Transition.Writes.{Ends-check_unchanged}

module _ {C R T X J : Type 0} (h : Host C R T X J) where
  -- The files of the store are these.
  abbrev pub HasFiles : FileState → FileState → Machine X J → Type 0
  HasFiles main backup m = (m.main.file ≡ main) × (m.backup.file ≡ backup)

  -- The generation of the candidate of a plan: above that of the store before, above that of every
  -- file that decodes, and with one of 64 bits left.
  abbrev pub HasRoom : FileState → FileState → Store → MutationPlan C R T → Type 0
  HasRoom main backup before p =
      (before.generation < p.receipt.candidate.generation)
      × IsFileBelow h.checker h.codec (p.receipt.candidate.generation - 1) main
      × IsFileBelow h.checker h.codec (p.receipt.candidate.generation - 1) backup
      × (p.receipt.candidate.generation < max_generation)

  generation_room :
      (main backup : FileState) (before : Store) (m : Machine X J) {highest g : ℕ}
      → HasFiles main backup m
      → highest_store_generation h.checker h.codec
          (record { main = m.main.file; backup = m.backup.file })
        ≡ ok highest
      → next_generation h highest before ≡ ok g
      → (before.generation < g)
        × IsFileBelow h.checker h.codec (g - 1) main
        × IsFileBelow h.checker h.codec (g - 1) backup
        × (g < max_generation)
  generation_room main backup before m {highest} {g} (e, e1) read next =
      let (old, disk, room) = next_generation_room h highest before next in
      let (first, second) =
        highest_below h.checker h.codec (record { main = m.main.file; backup = m.backup.file })
          read in
      let le = under highest g disk in
      (
        old,
        subst (IsFileBelow h.checker h.codec (g - 1)) e
            (below_trans h.checker h.codec m.main.file highest (g - 1) le first),
        subst (IsFileBelow h.checker h.codec (g - 1)) e1
            (below_trans h.checker h.codec m.backup.file highest (g - 1) le second),
        room,
      )
    where
      under : (a b : ℕ) → a < b → a ≤ b - 1
      under a b lt = omega arith

  module _ (main backup : FileState) where
    HasFiles-tick : (m : Machine X J) → HasFiles main backup m → HasFiles main backup (tick m)
    HasFiles-tick m k = k

    abbrev K : Machine X J → Type 0
    K m = HasFiles main backup m

    abbrev Planned : Store → MutationPlan C R T → Machine X J → Type 0
    Planned before p m = K m × HasRoom main backup before p

    metadata_room :
        (app : Config) (before wanted : Store) (m : Machine X J)
        → K m
        → Ends (Planned before) K K (plan_metadata h app before wanted m)
    unfolding plan_metadata store_evidence area_at highest_generation
    metadata_room app before wanted m k = then_observe h _ _ m k k (λ main e.
        then_observe h _ _ (tick m) k k (λ backup e1.
          Ends-followed _ _
            (Ends-validate_before h K HasFiles-tick before main backup (tick (tick m)) k)
            (λ u m1 k1. then_observe h _ _ m1 k1 k1 (λ highest read.
              then_attempt _ _ (tick m1) k1 (λ generation next.
                then_attempt _ _ (tick m1) k1 (λ text e3.
                  then_attempt _ _ (tick m1) k1
                    (λ v e4. Ends-returned (k1, generation_room _ _ before m1 k1 read next))))))))

    runtime_room :
        (join : String → ℤ → String) (app : Config) (before wanted : Store) (mode : SyncMode)
        (m : Machine X J)
        → K m
        → Ends (Planned before) K K (plan_runtime h join app before wanted mode m)
    unfolding plan_runtime store_evidence area_at highest_generation
    runtime_room join app before wanted mode m k = then_observe h _ _ m k k (λ main e.
        then_observe h _ _ (tick m) k k (λ backup e1.
          Ends-followed _ _
            (Ends-validate_before h K HasFiles-tick before main backup (tick (tick m)) k)
            (λ u m1 k1. then_observe h _ _ m1 k1 k1 (λ owned e2.
              then_attempt _ _ (tick m1) k1 (λ u1 e3.
                Ends-followed _ _ (Ends-with_dev_user h K HasFiles-tick app _ (tick m1) k1)
                  (λ next m2 k2. then_attempt _ _ m2 k2 (λ u2 e4.
                    then_observe h _ _ m2 k2 k2 (λ highest read.
                      then_attempt _ _ (tick m2) k2 (λ generation grown.
                        then_attempt _ _ (tick m2) k2 (λ text e6.
                          Ends-followed _ _
                            (Ends-planned_telegram h K HasFiles-tick next before _ _ (tick m2) k2)
                            (λ telegram m4 k4. then_observe h _ _ m4 k4 k4 (λ resources e7.
                              then_observe h _ _ (tick m4) k4 k4 (λ core e8.
                                then_attempt _ _ (tick (tick m4)) k4 (λ u3 e9.
                                  then_attempt _ _ (tick (tick m4)) k4 (λ u4 e10.
                                    Ends-followed _ _
                                      (Ends-check_unchanged h K HasFiles-tick _ (tick (tick m4)) k4)
                                      (λ u5 m5 k5. Ends-returned (
                                        k5,
                                        generation_room _ _ before m2 k2 read grown,
                                      )))))))))))))))))

    -- Planning leaves the files of the store, whatever the disk does, and a plan that it returns has
    -- a candidate with a generation above that of the store before, above that of the main file and
    -- of the backup where they decode, and below the highest of 64 bits, in every mode.
    pub plan_mutation_room :
        (join : String → ℤ → String) (app : Config) (before wanted : Store) (mode : SyncMode)
        (m : Machine X J)
        → HasFiles main backup m
        → Ends
            (λ p m'. HasFiles main backup m' × HasRoom main backup before p)
            (HasFiles main backup)
            (HasFiles main backup)
            (plan_mutation h join app before wanted mode m)
    unfolding plan_mutation
    plan_mutation_room join app before wanted sync_none m k = metadata_room app before wanted m k
    plan_mutation_room join app before wanted sync_xray m k =
        runtime_room join app before wanted sync_xray m k
    plan_mutation_room join app before wanted sync_all m k =
        runtime_room join app before wanted sync_all m k
    plan_mutation_room join app before wanted sync_global m k =
        runtime_room join app before wanted sync_global m k
    plan_mutation_room join app before wanted sync_dev m k =
        runtime_room join app before wanted sync_dev m k
    plan_mutation_room join app before wanted sync_telegram m k =
        runtime_room join app before wanted sync_telegram m k
