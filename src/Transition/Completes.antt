-- ===== src/Transition/Completes.antt =====
-- The recovery of a store that is committed, on a disk without faults
-- (`recoverRuntimeTransition`, internal/manager/runtime_transition.go).
use proxyscene.Common.{
  List, Option, [], ap, none, ok, refl, some, subst, sym, true, ℕ, ◌∙◌, ◌∷◌, ◌≡◌,
}
use proxyscene.Config.{Config}
use proxyscene.Store.Persist.{absent, bytes}
use proxyscene.Transition.{
  Area, Evidence, Host, Machine, TransitionRecord, no_record, returned, tick,
}
use proxyscene.Transition.Areas.{allows_first, allows_later, same_evidence_refl}
use proxyscene.Transition.Compensate.{finalize, may_commit, recover, recover_read, recover_record}
use proxyscene.Transition.Files.{
  StorePath, allows, area_at, backup_path, check_committed, check_committed_file,
  compensation_evidence, evidence_of, main_path, same_evidence, settle_all,
}
use proxyscene.Transition.Fine.{
  Holds, IsFine, IsLeftover, Settled, attempted, evidence_read, fine_change, fine_observe,
  IsFine-tick, followed_returned, settle_free, settle_main,
}
use proxyscene.Transition.Receipt.{decoded_record, read_transition, remove_transition, removed}

module _ {C R T X J : Type 0} (h : Host C R T X J) where
  check_file_fine :
      (r : TransitionRecord C R) (path : StorePath) (text : List ℕ) (m : Machine X J)
      → h.content_digest text ≡ r.candidate_digest
      → IsFine h m
      → (area_at path m).file ≡ bytes text
      → check_committed_file h r path m ≡ (tick m, returned tt)
  unfolding check_committed_file
  check_file_fine r path text m same now there =
      let e =
        subst (λ d. same_evidence (evidence_of (h.content_digest text)) (evidence_of d) ≡ true) same
          (same_evidence_refl (evidence_of (h.content_digest text))) in
      followed_returned h _ _ (tick m) _ (evidence_read h path text m now there)
      ∙ attempted h _ (tick m) tt (rw e refl)

  check_fine :
      (r : TransitionRecord C R) (text : List ℕ) (m : Machine X J)
      → h.content_digest text ≡ r.candidate_digest
      → Holds h text m
      → check_committed h r m ≡ (tick (tick m), returned tt)
  unfolding check_committed area_at
  check_fine r text m same (now, main, backup) =
      followed_returned h _ _ (tick m) tt
        (check_file_fine r main_path text m same now (ap (λ (a : Area). a.file) main))
      ∙ check_file_fine r backup_path text (tick m) same (IsFine-tick h m now)
          (ap (λ (a : Area). a.file) backup)

  finalize_fine :
      (resources : Option R) (m : Machine X J)
      → ((x : R) → resources ≡ some x → h.check_resources x ≡ ok tt)
      → finalize h resources m ≡ (m, returned tt)
  unfolding finalize
  finalize_fine none m good = refl
  finalize_fine (some x) m good = attempted h _ m tt (good x refl)

  -- The store stays committed, and the record is gone.
  abbrev pub IsClosed : List ℕ → Machine X J → Type 0
  IsClosed text m = (m.journal ≡ no_record) × Holds h text m

  recover_committed :
      (app : Config) (r : TransitionRecord C R) (text : List ℕ) (m : Machine X J)
      → may_commit r.phase ≡ true
      → h.content_digest text ≡ r.candidate_digest
      → ((x : R) → r.resources ≡ some x → h.check_resources x ≡ ok tt)
      → Holds h text m
      → (m' : Machine X J) × (recover_record h app r (evidence_of (h.content_digest text)) m
          ≡ (m', returned tt))
        × IsClosed text m'
  unfolding recover_record remove_transition removed
  recover_committed app r text m may same good holds =
      let (now, main, backup) = holds in
      let e =
        subst (λ d. same_evidence (evidence_of (h.content_digest text)) (evidence_of d) ≡ true) same
          (same_evidence_refl (evidence_of (h.content_digest text))) in
      let m2 = tick (tick m) in
      let now2 = IsFine-tick h (tick m) (IsFine-tick h m now) in
      (
        record (tick m2) { journal = no_record },
        rw e (
            followed_returned h _ _ m tt (attempted h _ m tt (rw may refl))
            ∙ (followed_returned h _ _ m2 tt (check_fine r text m same holds)
                ∙ (followed_returned h _ _ m2 tt (finalize_fine r.resources m2 good)
                    ∙ fine_change h _ m2 now2))),
        (refl, (IsFine-tick h m2 now2, main, backup)),
      )

  settle_both :
      (r : TransitionRecord C R) (text : List ℕ) (m : Machine X J)
      → r.compensation ≡ none
      → h.content_digest text ≡ r.candidate_digest
      → IsFine h m
      → m.main.file ≡ bytes text
      → IsLeftover h (r.before_main ∷ evidence_of r.candidate_digest ∷ []) m.main.claimed
      → m.backup ≡ record { file = bytes text; claimed = absent }
      → Settled h text (settle_all h r m)
  unfolding settle_all compensation_evidence area_at
  settle_both r text m none_yet same now there left backup =
      let allowed : List Evidence = r.before_main ∷ evidence_of r.candidate_digest ∷ [] in
      let fits =
        subst (λ d. allows allowed (evidence_of d) ≡ true) (sym same)
          (allows_later r.before_main _ _ (allows_first (evidence_of r.candidate_digest) [])) in
      let (m1, e, (now1, main1, backup1)) =
        settle_main h allowed text m.main.claimed m now refl there backup left fits in
      (
        tick m1,
        followed_returned h _ _ m [] (attempted h _ m [] (rw none_yet refl))
            ∙ (followed_returned h _ _ m1 tt e
                ∙ settle_free h backup_path _ m1 now1 (ap (λ (a : Area). a.claimed) backup1)),
        (IsFine-tick h m1 now1, main1, backup1),
      )

  -- From a machine with a record that reads, in the phase of the commit or behind it, with the
  -- candidate in the main file and in the backup, and perhaps the old main file still moved aside: a
  -- recovery that meets no fault returns, with the record gone and the candidate in both files. The
  -- snapshot of the resources must be in order.
  pub recover_completes :
      (app : Config) (r : TransitionRecord C R) (text : List ℕ) (m : Machine X J)
      → decoded_record h app m.journal ≡ ok r
      → may_commit r.phase ≡ true
      → r.compensation ≡ none
      → ((x : R) → r.resources ≡ some x → h.check_resources x ≡ ok tt)
      → h.content_digest text ≡ r.candidate_digest
      → IsFine h m
      → m.main.file ≡ bytes text
      → IsLeftover h (r.before_main ∷ evidence_of r.candidate_digest ∷ []) m.main.claimed
      → m.backup ≡ record { file = bytes text; claimed = absent }
      → (m' : Machine X J) × (recover h app m ≡ (m', returned true)) × IsClosed text m'
  unfolding recover recover_read read_transition area_at
  recover_completes app r text m reads may none_yet good same now there left backup =
      let (m1, e1, holds) =
        settle_both r text (tick m) none_yet same (IsFine-tick h m now) there left backup in
      let seen = ap (λ (a : Area). a.file) holds.1 in
      let (m2, e2, closed) =
        recover_committed app r text (tick m1) may same good
          (IsFine-tick h m1 holds.0, holds.1, holds.2) in
      (
        m2,
        ap (recover_read h app)
              (fine_observe h (λ m'. decoded_record h app m'.journal) m r now reads)
            ∙ (followed_returned h _ _ m1 tt e1
                ∙ (followed_returned h _ _ (tick m1) _
                      (evidence_read h main_path text m1 holds.0 seen)
                    ∙ followed_returned h _ _ m2 tt e2)),
        closed,
      )
