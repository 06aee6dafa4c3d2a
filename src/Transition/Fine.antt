-- ===== src/Transition/Fine.antt =====
-- Without faults of the disk, the recovery of a store that is committed comes to its end
-- (internal/manager/runtime_transition.go, runtime_transition_store.go).
use proxyscene.Common.{List, Result, arith, ok, refl, true, ℕ, ◌+◌, ◌∙◌, ◌≡◌, ◌≤◌}
use proxyscene.Store.Persist.{FileState, absent, bytes, unreadable}
use proxyscene.Transition.{
  Action, Ending, Evidence, Host, Machine, Stage, attempt, change, complete, fine, followed,
  observe, returned, tick,
}
use proxyscene.Transition.Files.{
  StorePath, allows, area_at, evidence_of, file_evidence, main_path, retired, settle,
  settle_claimed, settle_file, store_evidence, with_area,
}

module _ {C R T X J : Type 0} (h : Host C R T X J) where
  -- No effect from this moment on meets a fault.
  abbrev pub IsFine : Machine X J → Type 0
  IsFine m = (i : ℕ) → m.clock ≤ i → h.fault i ≡ fine

  pub IsFine-tick : (m : Machine X J) → IsFine m → IsFine (tick m)
  IsFine-tick m f i le = f i (step_le m.clock i le)
    where
      step_le : (c i : ℕ) → c + 1 ≤ i → c ≤ i
      step_le c i le = omega arith

  fine_now : (m : Machine X J) → IsFine m → h.fault m.clock ≡ fine
  fine_now m f = f m.clock (omega arith)

  pub fine_observe :
      {A : Type 0} (f : Machine X J → Result A) (m : Machine X J) (a : A)
      → IsFine m
      → f m ≡ ok a
      → observe h f m ≡ (tick m, returned a)
  unfolding observe
  fine_observe f m a now e = rw (fine_now m now, e) refl

  pub fine_change :
      (f : Stage → Machine X J → Machine X J) (m : Machine X J)
      → IsFine m
      → change h f m ≡ (f complete (tick m), returned tt)
  unfolding change
  fine_change f m now = rw (fine_now m now) refl

  pub followed_returned :
      {A B : Type 0} (next : A → Action X J B) (x : Machine X J × Ending A) (m : Machine X J)
      (a : A)
      → x ≡ (m, returned a)
      → followed next x ≡ next a m
  unfolding followed
  followed_returned next x m a e = rw e refl

  pub attempted :
      {A : Type 0} (r : Result A) (m : Machine X J) (a : A)
      → r ≡ ok a
      → attempt r m ≡ (m, returned a)
  unfolding attempt
  attempted r m a e = rw e refl

  -- Both files hold the text, and nothing is moved aside.
  abbrev pub Holds : List ℕ → Machine X J → Type 0
  Holds text m =
      IsFine m
      × (m.main ≡ record { file = bytes text; claimed = absent })
      × (m.backup ≡ record { file = bytes text; claimed = absent })

  abbrev pub Settled : List ℕ → Machine X J × Ending (Unit {0}) → Type 0
  Settled text x = (m : Machine X J) × (x ≡ (m, returned tt)) × Holds text m

  -- Behind the main file an old one may still be moved aside, which the record allows.
  abbrev pub IsLeftover : List Evidence → FileState → Type 0
  IsLeftover allowed absent = Unit
  IsLeftover allowed unreadable = ⊥
  IsLeftover allowed (bytes b) = allows allowed (evidence_of (h.content_digest b)) ≡ true

  pub evidence_read :
      (path : StorePath) (text : List ℕ) (m : Machine X J)
      → IsFine m
      → (area_at path m).file ≡ bytes text
      → store_evidence h path m ≡ (tick m, returned (evidence_of (h.content_digest text)))
  unfolding store_evidence file_evidence
  evidence_read path text m now there =
      fine_observe (λ m'. file_evidence h (area_at path m').file) m _ now (rw there refl)

  pub settle_free :
      (path : StorePath) (allowed : List Evidence) (m : Machine X J)
      → IsFine m
      → (area_at path m).claimed ≡ absent
      → settle h path allowed m ≡ (tick m, returned tt)
  unfolding settle settle_claimed
  settle_free path allowed m now free =
      followed_returned _ _ (tick m) absent
        (fine_observe (λ m'. ok (area_at path m').claimed) m absent now (rw free refl))

  settle_left :
      (allowed : List Evidence) (text b : List ℕ) (m : Machine X J)
      → IsFine m
      → m.main.claimed ≡ bytes b
      → m.main.file ≡ bytes text
      → m.backup ≡ record { file = bytes text; claimed = absent }
      → allows allowed (evidence_of (h.content_digest b)) ≡ true
      → allows allowed (evidence_of (h.content_digest text)) ≡ true
      → Settled text (settle h main_path allowed m)
  unfolding settle settle_claimed settle_file area_at with_area retired
  settle_left allowed text b m now left there backup old new =
      let m1 = tick (tick m) in
      let now1 = IsFine-tick m now in
      let now2 = IsFine-tick (tick m) now1 in
      (
        record (tick m1) { main = record m1.main { claimed = absent } },
        followed_returned _ _ (tick m) (bytes b)
              (fine_observe (λ m'. ok m'.main.claimed) m (bytes b) now (rw left refl))
            ∙ (followed_returned _ _ (tick m) tt (attempted _ (tick m) tt (rw old refl))
                ∙ (followed_returned _ _ m1 (bytes text) (
                      fine_observe (λ m'. ok m'.main.file) (tick m) (bytes text) now1
                        (rw there refl))
                    ∙ (followed_returned _ _ m1 tt (attempted _ m1 tt (rw new refl))
                        ∙ fine_change _ m1 now2))),
        (IsFine-tick m1 now2, λ i. record { file = there i; claimed = absent }, backup),
      )

  pub settle_main :
      (allowed : List Evidence) (text : List ℕ) (c : FileState) (m : Machine X J)
      → IsFine m
      → m.main.claimed ≡ c
      → m.main.file ≡ bytes text
      → m.backup ≡ record { file = bytes text; claimed = absent }
      → IsLeftover allowed c
      → allows allowed (evidence_of (h.content_digest text)) ≡ true
      → Settled text (settle h main_path allowed m)
  unfolding area_at
  settle_main allowed text absent m now left there backup old new = (
    tick m,
    settle_free main_path allowed m now left,
    (IsFine-tick m now, λ i. record { file = there i; claimed = left i }, backup),
  )
  settle_main allowed text unreadable m now left there backup old new = absurd old
  settle_main allowed text (bytes b) m now left there backup old new =
      settle_left allowed text b m now left there backup old new
