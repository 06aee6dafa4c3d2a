-- ===== src/Transition/Settle.antt =====
-- `settleRuntimeStoreQuarantines` keeps what its two moves keep
-- (internal/manager/runtime_transition_store.go).
use proxyscene.Common.{List, ap, ok-injective, refl, ℕ, ◌∙◌, ◌≡◌}
use proxyscene.Store.Persist.{FileState, absent, bytes, unreadable}
use proxyscene.Transition.{Area, Evidence, Host, Machine, Stage, TransitionRecord, complete, tick}
use proxyscene.Transition.Files.{
  StorePath, area_at, backup_path, main_path, put_back, retired, settle, settle_all, settle_claimed,
  settle_file, with_area,
}
use proxyscene.Transition.Outcomes.{
  Ends, Ends-attempt, Ends-change, Ends-followed, Ends-returned, Ends-weaken, then_attempt,
  then_observe,
}
use proxyscene.Transition.Sound.{IsTidy}

-- A property of the machine that the clock does not touch, and that a file moved aside may go back
-- under, to a free path, or be removed under.
pub record IsStableAt {X J : Type 0} (path : StorePath) (P : Machine X J → Type 0) : Type 0 where
  pub ticks : (m : Machine X J) → P m → P (tick m)
  pub goes_back :
      (m : Machine X J) (s : Stage) {b : List ℕ}
      → (area_at path m).claimed ≡ bytes b
      → (area_at path m).file ≡ absent
      → P m
      → P (with_area path m (put_back (area_at path m) s))
  pub is_retired :
      (m : Machine X J) (s : Stage) {b c : List ℕ}
      → (area_at path m).claimed ≡ bytes b
      → (area_at path m).file ≡ bytes c
      → P m
      → P (with_area path m (retired (area_at path m) s))

pub area-tick :
    {X J : Type 0} (path : StorePath) (m : Machine X J) → area_at path (tick m) ≡ area_at path m
unfolding area_at
area-tick main_path m = refl
area-tick backup_path m = refl

area-with :
    {X J : Type 0} (path : StorePath) (m : Machine X J) (a : Area)
    → area_at path (with_area path m a) ≡ a
unfolding area_at with_area
area-with main_path m a = refl
area-with backup_path m a = refl

module _ {C R T X J : Type 0} (h : Host C R T X J) (path : StorePath) (P : Machine X J → Type 0)
    (stable : IsStableAt path P) where
  abbrev Clean : Unit {0} → Machine X J → Type 0
  Clean u m = P m × ((area_at path m).claimed ≡ absent)

  Ends-settle_file :
      (allowed : List Evidence) (f : FileState) (m : Machine X J) {b : List ℕ}
      → (area_at path m).claimed ≡ bytes b
      → (area_at path m).file ≡ f
      → P m
      → Ends Clean P P (settle_file h path allowed f m)
  unfolding settle_file put_back retired
  Ends-settle_file allowed absent m moved there p =
      let c1 = ap (λ (a : Area). a.claimed) (area-tick path m) ∙ moved in
      let f1 = ap (λ (a : Area). a.file) (area-tick path m) ∙ there in
      let part = λ (s : Stage). stable.goes_back (tick m) s c1 f1 (stable.ticks m p) in
      Ends-change h _ m part part
        (part complete, ap (λ (a : Area). a.claimed) (area-with path (tick m) _))
  Ends-settle_file allowed unreadable m moved there p = Ends-attempt _ m p (λ a e. cc)
  Ends-settle_file allowed (bytes t) m moved there p =
      let c1 = ap (λ (a : Area). a.claimed) (area-tick path m) ∙ moved in
      let f1 = ap (λ (a : Area). a.file) (area-tick path m) ∙ there in
      let part = λ (s : Stage). stable.is_retired (tick m) s c1 f1 (stable.ticks m p) in
      then_attempt _ _ m p (λ u e.
        Ends-change h _ m part part
          (part complete, ap (λ (a : Area). a.claimed) (area-with path (tick m) _)))

  Ends-settle_claimed :
      (allowed : List Evidence) (c : FileState) (m : Machine X J)
      → (area_at path m).claimed ≡ c
      → P m
      → Ends Clean P P (settle_claimed h path allowed c m)
  unfolding settle_claimed
  Ends-settle_claimed allowed absent m moved p = Ends-returned (p, moved)
  Ends-settle_claimed allowed unreadable m moved p = Ends-attempt _ m p (λ a e. cc)
  Ends-settle_claimed allowed (bytes t) m moved p = then_attempt _ _ m p (λ u e.
      let q = stable.ticks m p in
      then_observe h _ _ m q q (λ f e1.
        let same = area-tick path m in
        Ends-settle_file allowed f (tick m) (ap (λ (a : Area). a.claimed) same ∙ moved)
          (ap (λ (a : Area). a.file) same ∙ ok-injective e1) q))

  pub Ends-settle :
      (allowed : List Evidence) (m : Machine X J) → P m → Ends Clean P P (settle h path allowed m)
  unfolding settle
  Ends-settle allowed m p =
      let q = stable.ticks m p in
      then_observe h _ _ m q q (λ c e.
        Ends-settle_claimed allowed c (tick m)
          (ap (λ (a : Area). a.claimed) (area-tick path m) ∙ ok-injective e) q)

module _ {C R T X J : Type 0} (h : Host C R T X J) (P : Machine X J → Type 0)
    (at_main : IsStableAt main_path P) (at_backup : IsStableAt backup_path P) where
  -- Once the main file is settled.
  abbrev WithMain : Machine X J → Type 0
  WithMain m = P m × (m.main.claimed ≡ absent)

  main_stays : IsStableAt backup_path WithMain
  unfolding area_at with_area
  main_stays = record {
    ticks = λ m p. (at_backup.ticks m p.0, p.1);
    goes_back = λ m s c f p. (at_backup.goes_back m s c f p.0, p.1);
    is_retired = λ m s c f p. (at_backup.is_retired m s c f p.0, p.1);
  }

  pub Ends-settle_all :
      (r : TransitionRecord C R) (m : Machine X J)
      → P m
      → Ends (λ u m'. P m' × IsTidy m'.main m'.backup) P P (settle_all h r m)
  unfolding settle_all area_at
  Ends-settle_all r m p = then_attempt _ _ m p (λ c e.
      Ends-followed _ _ (Ends-settle h main_path P at_main _ m p) (λ u m1 q.
        Ends-weaken _ (Ends-settle h backup_path WithMain main_stays _ m1 q)
          (λ v m2 w. (w.0.0, (w.0.1, w.1))) (λ m2 w. w.0) (λ m2 w. w.0)))
