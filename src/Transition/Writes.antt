-- ===== src/Transition/Writes.antt =====
-- The checks and the writes of the transaction, and what they keep of its invariant
-- (internal/manager/runtime_transition.go, runtime_transition_store.go).
use proxyscene.Common.{
  Bool, List, String, [], accepted, ap, arith, false, not, ok, ok-injective, refl, subst, sym, true,
  ℕ, ◌∙◌, ◌∷◌, ◌≡◌,
}
use proxyscene.Config.{Config}
use proxyscene.Store.Persist.{FileState, absent, bytes, unreadable}
use proxyscene.Transition.{
  Area, Evidence, Host, Machine, RecordFile, Stage, TransitionRecord, aside, complete, linked,
  no_record, record_text, tick, untouched,
}
use proxyscene.Transition.Areas.{allows_first, same_evidence→eq}
use proxyscene.Transition.Compensate.{check_before_compensation, check_file, highest_generation}
use proxyscene.Transition.Files.{
  StorePath, allows, area_at, backup_path, check_committed, check_committed_file, check_unchanged,
  evidence_of, file_evidence, main_path, no_evidence, same_evidence, store_evidence, swap,
  swap_where, swapped, with_area, write_store_cas,
}
use proxyscene.Transition.Outcomes.{
  Ends, Ends-attempt, Ends-change, Ends-followed, Ends-observe, Ends-weaken, then_attempt,
  then_observe,
}
use proxyscene.Transition.Receipt.{recorded, remove_transition, removed, write_transition}
use proxyscene.Transition.Settle.{area-tick}
use proxyscene.Transition.Sound.{
  FileIn, IsAtomic, IsLogged, IsOwnRecord, IsSound, IsTidy, Laws, Origin, Pending, Sound,
}

module _ {C R T X J : Type 0} (h : Host C R T X J) where
  pub seen_file :
      (f : FileState) (seen e : Evidence)
      → file_evidence h f ≡ ok seen
      → same_evidence seen e ≡ true
      → FileIn h.content_digest (e ∷ []) f
  unfolding file_evidence
  seen_file absent seen e read same =
      subst (λ x. allows (x ∷ []) no_evidence ≡ true)
        (ok-injective read ∙ same_evidence→eq seen e same) (allows_first no_evidence [])
  seen_file unreadable seen e read same = cc
  seen_file (bytes t) seen e read same =
      subst (λ x. allows (x ∷ []) (evidence_of (h.content_digest t)) ≡ true)
        (ok-injective read ∙ same_evidence→eq seen e same)
        (allows_first (evidence_of (h.content_digest t)) [])

pub not-eq-false : (b : Bool) → not b ≡ false → b ≡ true
not-eq-false b e = ground (arith, e)

-- Reads keep whatever does not depend on the clock.
module _ {C R T X J : Type 0} (h : Host C R T X J) (P : Machine X J → Type 0)
    (ticks : (m : Machine X J) → P m → P (tick m)) where
  pub Ends-check_unchanged :
      (r : TransitionRecord C R) (m : Machine X J)
      → P m
      → Ends (λ u m'. P m') P P (check_unchanged h r m)
  unfolding check_unchanged store_evidence
  Ends-check_unchanged r m p =
      let p1 = ticks m p in
      let p2 = ticks (tick m) p1 in
      then_observe h _ _ m p1 p1 (λ main e.
        then_observe h _ _ (tick m) p2 p2 (λ backup e1. Ends-attempt _ _ p2 (λ u e2. p2)))

  pub Ends-check_before_compensation :
      (r : TransitionRecord C R) (m : Machine X J)
      → P m
      → Ends (λ u m'. P m') P P (check_before_compensation h r m)
  unfolding check_before_compensation store_evidence
  Ends-check_before_compensation r m p =
      let p1 = ticks m p in
      let p2 = ticks (tick m) p1 in
      then_observe h _ _ m p1 p1 (λ main e. then_observe h _ _ (tick m) p2 p2 (λ backup e1.
        then_attempt _ _ _ p2
          (λ comps e2. then_attempt _ _ _ p2 (λ u e3. Ends-attempt _ _ p2 (λ v e4. p2)))))

  pub Ends-highest_generation :
      (m : Machine X J) → P m → Ends (λ g m'. P m') P P (highest_generation h m)
  unfolding highest_generation
  Ends-highest_generation m p = Ends-observe h _ m (ticks m p) (ticks m p) (λ g e. ticks m p)

  pub Ends-check_file :
      (path : StorePath) (e : Evidence) (m : Machine X J)
      → P m
      → Ends
          (λ u m'. P m' × FileIn h.content_digest (e ∷ []) (area_at path m').file)
          P
          P
          (check_file h path e m)
  unfolding check_file store_evidence
  Ends-check_file path e m p =
      let p1 = ticks m p in
      then_observe h _ _ m p1 p1 (λ seen read. Ends-attempt _ _ p1 (λ u same. (
        p1,
        subst (λ (a : Area). FileIn h.content_digest (e ∷ []) a.file) (sym (area-tick path m))
            (seen_file h (area_at path m).file seen e read (not-eq-false _ (accepted _ _ same))),
      )))

  Ends-check_committed_file :
      (r : TransitionRecord C R) (path : StorePath) (m : Machine X J)
      → P m
      → Ends
          (λ u m'.
            P m'
            × FileIn h.content_digest (evidence_of r.candidate_digest ∷ []) (area_at path m').file)
          P
          P
          (check_committed_file h r path m)
  unfolding check_committed_file store_evidence
  Ends-check_committed_file r path m p =
      let p1 = ticks m p in
      let e = evidence_of r.candidate_digest in
      then_observe h _ _ m p1 p1 (λ seen read. Ends-attempt _ _ p1 (λ u same. (
        p1,
        subst (λ (a : Area). FileIn h.content_digest (e ∷ []) a.file) (sym (area-tick path m))
            (seen_file h (area_at path m).file seen e read (not-eq-false _ (accepted _ _ same))),
      )))

module _ {C R T X J : Type 0} (h : Host C R T X J)
    (K : RecordFile J → Area → Area → (String → X) → Type 0) where
  abbrev Kept : Machine X J → Type 0
  Kept m = K m.journal m.main m.backup m.world

  pub Ends-check_committed :
      (r : TransitionRecord C R) (m : Machine X J)
      → Kept m
      → Ends
          (λ u m'.
            Kept m'
            × FileIn h.content_digest (evidence_of r.candidate_digest ∷ []) m'.main.file
            × FileIn h.content_digest (evidence_of r.candidate_digest ∷ []) m'.backup.file)
          Kept
          Kept
          (check_committed h r m)
  unfolding check_committed area_at
  Ends-check_committed r m p =
      let e = evidence_of r.candidate_digest in
      let Both = λ (m' : Machine X J). Kept m' × FileIn h.content_digest (e ∷ []) m'.main.file in
      Ends-followed _ _ (Ends-check_committed_file h Kept (λ m' k. k) r main_path m p) (λ u m1 q.
        Ends-weaken _ (Ends-check_committed_file h Both (λ m' k. k) r backup_path m1 q)
          (λ v m2 w. (w.0.0, w.0.1, w.1)) (λ m2 w. w.0) (λ m2 w. w.0))

-- A swap where nothing is moved aside.
module _ {C R T X J : Type 0} (h : Host C R T X J) {Good : Unit {0} → Machine X J → Type 0}
    {Bad Dead : Machine X J → Type 0} where
  Ends-swap_where :
      (path : StorePath) (text : List ℕ) (f : FileState) (m : Machine X J)
      → f ≡ absent
      → ((s : Stage) → Bad (with_area path (tick m) (swapped text (area_at path (tick m)) s)))
      → ((s : Stage) → Dead (with_area path (tick m) (swapped text (area_at path (tick m)) s)))
      → Good tt (with_area path (tick m) (swapped text (area_at path (tick m)) complete))
      → Ends Good Bad Dead (swap_where h f path text m)
  unfolding swap_where
  Ends-swap_where path text absent m clean bad dead good = Ends-change h _ m bad dead good
  Ends-swap_where path text unreadable m clean bad dead good = cc
  Ends-swap_where path text (bytes b) m clean bad dead good = cc

  pub Ends-write_store_cas :
      (path : StorePath) (e : Evidence) (text : List ℕ) (m : Machine X J)
      → (area_at path m).claimed ≡ absent
      → Bad (tick m)
      → Dead (tick m)
      → ((s : Stage)
          → Bad (with_area path (tick (tick m)) (swapped text (area_at path (tick (tick m))) s)))
      → ((s : Stage)
          → Dead (with_area path (tick (tick m)) (swapped text (area_at path (tick (tick m))) s)))
      → Good tt
          (with_area path (tick (tick m)) (swapped text (area_at path (tick (tick m))) complete))
      → Ends Good Bad Dead (write_store_cas h path e text m)
  unfolding write_store_cas store_evidence swap
  Ends-write_store_cas path e text m clean b d bad dead good =
      then_observe h _ _ m b d (λ seen read. then_attempt _ _ _ b (λ u same.
        Ends-swap_where path text _ (tick m)
          (ap (λ (a : Area). a.claimed) (area-tick path m) ∙ clean) bad dead good))

module _ {C R T X J : Type 0} (h : Host C R T X J) (o : Origin C R X) (laws : Laws h o) where
  -- A record on the disk that tells the truth.
  pub truth-IsSound :
      (r : TransitionRecord C R) (m : Machine X J)
      → m.journal ≡ record_text (h.write_record r)
      → IsOwnRecord h o r
      → Pending h o r.phase r m.main m.backup m.world
      → IsSound h o m
  truth-IsSound r m j own pending =
      subst (λ f. Sound h o f m.main m.backup m.world) (sym j) (r, laws.reads_back r, own, pending)

  pub logged-IsSound :
      (r : TransitionRecord C R) (m : Machine X J) → IsLogged h o r m → IsSound h o m
  logged-IsSound r m (j, own, pending, tidy) = truth-IsSound r m j own pending

  -- The write of a record that tells the truth about the machine.
  pub Ends-log :
      (K : Area → Area → (String → X) → Type 0) (app : Config) (r : TransitionRecord C R)
      (m : Machine X J)
      → IsSound h o m
      → K m.main m.backup m.world
      → IsOwnRecord h o r
      → Pending h o r.phase r m.main m.backup m.world
      → IsTidy m.main m.backup
      → Ends
          (λ u m'. IsLogged h o r m' × K m'.main m'.backup m'.world)
          (λ m'. IsSound h o m' × K m'.main m'.backup m'.world)
          (λ m'. IsSound h o m' × K m'.main m'.backup m'.world)
          (write_transition h app r m)
  unfolding write_transition recorded
  Ends-log K app r m sound k own pending tidy =
      then_attempt _ _ m (sound, k)
        (λ u e.
          then_attempt _ _ m (sound, k)
            (λ v e1. Ends-change h _ m part part ((refl, own, pending, tidy), k)))
    where
      part :
          (s : Stage)
          → IsSound h o (recorded h (h.write_record r) s (tick m))
            × K
                (recorded h (h.write_record r) s (tick m)).main
                (recorded h (h.write_record r) s (tick m)).backup
                (recorded h (h.write_record r) s (tick m)).world
      part untouched = (sound, k)
      part aside = (sound, k)
      part linked = ((r, laws.reads_back r, own, pending), k)
      part complete = ((r, laws.reads_back r, own, pending), k)

  pub Ends-remove :
      (K : Area → Area → (String → X) → Type 0) (m : Machine X J)
      → IsSound h o m
      → K m.main m.backup m.world
      → IsAtomic h o m.main m.backup m.world
      → Ends
          (λ u m'. (m'.journal ≡ no_record) × K m'.main m'.backup m'.world)
          (IsSound h o)
          (IsSound h o)
          (remove_transition h m)
  unfolding remove_transition removed
  Ends-remove K m sound k atomic = Ends-change h _ m part part (refl, k)
    where
      part : (s : Stage) → IsSound h o (removed h s (tick m))
      part untouched = sound
      part aside = sound
      part linked = atomic
      part complete = atomic
