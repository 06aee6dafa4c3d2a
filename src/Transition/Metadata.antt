-- ===== src/Transition/Metadata.antt =====
-- Mutations of the store that no runtime follows: `commitStoreMutation` in the mode without a
-- synchronisation, then recoveries (internal/manager/runtime_transition.go, node.go).
use proxyscene.Common.{
  Result, String, [], contains, inr, ok, refl, some, subst, true, ℕ, ℤ, ◌<◌, ◌≡◌,
}
use proxyscene.Config.{Config}
use proxyscene.Store.{Store}
use proxyscene.Transition.{Evidence, Host, Machine, TransitionRecord, no_record, tick}
use proxyscene.Transition.Atomic.{any_ending, commit_plan-IsSound, recovered-IsSound}
use proxyscene.Transition.Compensate.{compensate, recover}
use proxyscene.Transition.Compensated.{compensate-IsSound}
use proxyscene.Transition.Outcomes.{Ends, Ends-followed, Ends-weaken, then_attempt, then_observe}
use proxyscene.Transition.Planned.{Ends-plan_metadata, base-IsSound}
use proxyscene.Transition.Planning.{commit_store_mutation, plan_mutation, sync_none}
use proxyscene.Transition.Receipt.{has_transition}
use proxyscene.Transition.Recovered.{IsRecovered, recover-IsSound}
use proxyscene.Transition.Sound.{
  IsAtomic, IsDone, IsExactly, IsReady, IsRestored, IsSound, Laws, Origin, Sound,
}
use proxyscene.Transition.Steps.{finished-IsSound}

pub no_steps : (name : String) → contains [] name ≡ true → ⊥
unfolding contains
no_steps name e = cc

module _ (st : Store) (mutate : Store → Result Store) where
  -- The candidates: what the mutation makes of the store, with a later generation and the stored
  -- configuration of before.
  abbrev pub IsWanted : Store → Type 0
  IsWanted s =
      (wanted : Store) × (mutate st ≡ ok wanted)
      × (g : ℕ) × (st.generation < g)
      × (s ≡ record wanted { generation = g; stored_config = st.stored_config })

  module _ {C R X : Type 0} (main backup : Evidence) (world : String → X) where
    -- A transaction without steps: a resource is never anything but what it was.
    abbrev pub metadata_origin : Origin C R X
    metadata_origin = record {
      main_evidence = main;
      backup_evidence = backup;
      store = st;
      resource = world;
      candidate = IsWanted;
      steps = [];
      within = λ core resources name x0 x. x ≡ x0;
      applied = λ core resources name x0 x. x ≡ x0;
    }

    abbrev pub metadata-Laws :
        {T J : Type 0} (h : Host C R T X J)
        → ((r : TransitionRecord C R) → h.parse_record (h.write_record r) ≡ some r)
        → Laws h metadata_origin
    metadata-Laws h reads = record {
      reads_back = reads;
      executes = λ i p name x e same. absurd (no_steps name e);
      undoes = λ i app r name x e same. absurd (no_steps name e);
    }

module _ {C R T X J : Type 0} (h : Host C R T X J)
    (reads : (r : TransitionRecord C R) → h.parse_record (h.write_record r) ≡ some r) (st : Store)
    (mutate : Store → Result Store) (main backup : Evidence) (world : String → X) where
  abbrev pub own_origin : Origin C R X
  own_origin = metadata_origin st mutate main backup world

  abbrev pub own_laws : Laws h own_origin
  own_laws = metadata-Laws st mutate main backup world h reads

  -- No record on the disk, nothing moved aside, and the evidence of the files is this.
  abbrev pub IsIdle : Machine X J → Type 0
  IsIdle m =
      (m.journal ≡ no_record)
      × IsExactly h own_origin main m.main
      × IsExactly h own_origin backup m.backup
      × ((name : String) → m.world name ≡ world name)

  -- A mutation without a synchronisation, from a machine without a record on the disk and with
  -- nothing moved aside, with any faults of the disk and stopped anywhere. Behind a success the
  -- record is gone, no resource has changed, and both files have the digest of the text of a candidate: what the mutation
  -- makes of the store, with a later generation and the stored configuration of before. Behind a
  -- failure or a stop the invariant of the transaction stands. A record reads back as itself.
  pub commit_metadata-IsSound :
      (join : String → ℤ → String) (app : Config) (m : Machine X J)
      → IsIdle m
      → Ends
          (λ x m'. (m'.journal ≡ no_record) × IsDone h own_origin m'.main m'.backup m'.world)
          (IsSound h own_origin)
          (IsSound h own_origin)
          (commit_store_mutation h join app st mutate sync_none m)
  unfolding commit_store_mutation has_transition plan_mutation
  commit_metadata-IsSound join app m base =
      let sound = base-IsSound h own_origin own_laws m base in
      then_observe h _ _ m sound sound (λ pending e. then_attempt _ _ (tick m) sound (λ u e1.
        then_attempt _ _ (tick m) sound (λ candidate e2.
          Ends-followed _ _
            (Ends-weaken _
              (Ends-plan_metadata h own_origin own_laws (λ core resources n. refl) app st candidate
                (tick m) refl refl (λ g later. (candidate, e2, g, later, refl)) base)
              (λ p m1 w. w) (base-IsSound h own_origin own_laws)
              (base-IsSound h own_origin own_laws))
            (λ p m1 planned.
              commit_plan-IsSound h own_origin own_laws app p m1 planned.0 planned.1))))

  -- The machines that a mutation and then recoveries may lead to, each of them ending in any way.
  pub data Reached (join : String → ℤ → String) (app : Config) (start : Machine X J)
      : Machine X J → Type 0 where
    behind_commit :
        Reached join app start (commit_store_mutation h join app st mutate sync_none start).0
    behind_recovery :
        {m : Machine X J} → Reached join app start m → Reached join app start (recover h app m).0

  -- The invariant holds behind the mutation and any number of recoveries.
  pub Reached-IsSound :
      (join : String → ℤ → String) (app : Config) (start : Machine X J)
      → IsIdle start
      → (m : Machine X J) → Reached join app start m
      → IsSound h own_origin m
  Reached-IsSound join app start fresh m behind_commit =
      any_ending h own_origin own_laws (commit_store_mutation h join app st mutate sync_none start)
        (λ x m1 e. finished-IsSound h own_origin own_laws m1 (e.0, inr e.1))
        (commit_metadata-IsSound join app start fresh)
  Reached-IsSound join app start fresh m (behind_recovery {m = m1} before) =
      any_ending h own_origin own_laws (recover h app m1) (recovered-IsSound h own_origin own_laws)
        (recover-IsSound h own_origin own_laws app m1
          (Reached-IsSound join app start fresh m1 before))

  -- Once no record is on the disk behind a mutation without a synchronisation and any recoveries,
  -- each of them failing or stopping anywhere, no resource has changed and the mutation was atomic:
  -- both files have the digest of
  -- the text of a candidate, which is what the mutation makes of the store with a later generation
  -- and the stored configuration of before, or the files are the old ones, or both have the digest of
  -- the old store with another generation. A record reads back as itself.
  pub Reached-IsAtomic :
      (join : String → ℤ → String) (app : Config) (start : Machine X J)
      → IsIdle start
      → (m : Machine X J) → Reached join app start m
      → m.journal ≡ no_record
      → IsAtomic h own_origin m.main m.backup m.world
  Reached-IsAtomic join app start fresh m reached gone =
      subst (λ j. Sound h own_origin j m.main m.backup m.world) gone
        (Reached-IsSound join app start fresh m reached)

  -- From any state that satisfies the invariant of a mutation without a synchronisation, whatever the
  -- disk does: a recovery that finds a record and returns has removed it, with both files a candidate
  -- of the mutation, or the files the old ones or both the old store with another generation. A
  -- recovery that fails or stops leaves the invariant. A record reads back as itself.
  pub recover_metadata-IsSound :
      (app : Config) (m : Machine X J)
      → IsSound h own_origin m
      → Ends
          (IsRecovered h own_origin own_laws)
          (IsSound h own_origin)
          (IsSound h own_origin)
          (recover h app m)
  recover_metadata-IsSound app m sound = recover-IsSound h own_origin own_laws app m sound

  -- A compensation of a mutation without a synchronisation, from any state that it may start from,
  -- whatever the disk does: behind one that returns the record is gone, every resource is as it was,
  -- and the files are the old ones, or both the old store with another generation. Behind one that
  -- fails or stops the invariant stands. A record reads back as itself.
  pub compensate_metadata-IsSound :
      (app : Config) (r : TransitionRecord C R) (m : Machine X J)
      → IsReady h own_origin r m
      → Ends
          (λ u m'. (m'.journal ≡ no_record) × IsRestored h own_origin m'.main m'.backup m'.world)
          (IsSound h own_origin)
          (IsSound h own_origin)
          (compensate h app r m)
  compensate_metadata-IsSound app r m ready = compensate-IsSound h own_origin own_laws app r m ready
