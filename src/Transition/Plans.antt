-- ===== src/Transition/Plans.antt =====
-- The reads of the planning of a transaction (internal/manager/runtime_transition.go). They leave
-- what holds of a machine whatever its clock.
use proxyscene.Common.{Bool, Bool-cases, Option, false, inl, inr, none, not, some, true}
use proxyscene.Config.{Config}
use proxyscene.Store.{Store}
use proxyscene.Transition.{Evidence, Host, Machine, tick}
use proxyscene.Transition.Files.{StorePath, backup_path, main_path}
use proxyscene.Transition.Outcomes.{
  Ends, Ends-attempt, Ends-followed, Ends-observe, Ends-returned, then_attempt, then_observe,
}
use proxyscene.Transition.Planning.{
  planned_telegram, read_before, read_either, validate_before, with_dev_user,
}

module _ {C R T X J : Type 0} (h : Host C R T X J) (K : Machine X J → Type 0)
    (ticks : (m : Machine X J) → K m → K (tick m)) where
  Ends-read_before :
      (path : StorePath) (e : Evidence) (m : Machine X J)
      → K m
      → Ends (λ st m'. K m') K K (read_before h path e m)
  unfolding read_before
  Ends-read_before path e m base = elim (Bool-cases (not e.present)) [
    | inl free ↦ rw free (Ends-returned base)
    | inr there ↦
        rw there (Ends-observe h _ m (ticks m base) (ticks m base) (λ st read. ticks m base))
  ]

  Ends-read_either :
      (e : Evidence) (found : Option Store) (m : Machine X J)
      → K m
      → Ends (λ st m'. K m') K K (read_either h e found m)
  unfolding read_either
  Ends-read_either e none m base = Ends-read_before backup_path e m base
  Ends-read_either e (some st) m base = Ends-returned base

  pub Ends-validate_before :
      (before : Store) (main backup : Evidence) (m : Machine X J)
      → K m
      → Ends (λ u m'. K m') K K (validate_before h before main backup m)
  unfolding validate_before
  Ends-validate_before before main backup m base =
      Ends-followed _ _ (Ends-read_before main_path main m base) (λ first m1 b1.
        Ends-followed _ _ (Ends-read_either backup first m1 b1) (λ found m2 b2.
          then_attempt _ _ m2 b2 (λ st e. then_attempt _ _ m2 b2 (λ actual e1.
            then_attempt _ _ m2 b2 (λ expected e2. Ends-attempt _ m2 b2 (λ u e3. b2))))))

  pub Ends-with_dev_user :
      (next : Config) (b : Bool) (m : Machine X J)
      → K m
      → Ends (λ c m'. K m') K K (with_dev_user h next b m)
  unfolding with_dev_user
  Ends-with_dev_user next true m base =
      then_observe h _ _ m (ticks m base) (ticks m base) (λ user e. Ends-returned (ticks m base))
  Ends-with_dev_user next false m base = Ends-returned base

  pub Ends-planned_telegram :
      (next : Config) (before candidate : Store) (b : Bool) (m : Machine X J)
      → K m
      → Ends (λ t m'. K m') K K (planned_telegram h next before candidate b m)
  unfolding planned_telegram
  Ends-planned_telegram next before candidate true m base =
      then_observe h _ _ m (ticks m base) (ticks m base) (λ t e. Ends-returned (ticks m base))
  Ends-planned_telegram next before candidate false m base = Ends-returned base
