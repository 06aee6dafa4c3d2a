-- ===== src/Transition/Finish.antt =====
-- `finishRuntimeCompensationStore`: the files of the store become the old ones or both the
-- compensation (internal/manager/runtime_transition.go).
use proxyscene.Common.{
  Bool, List, Option, String, [], ap, false, none, ok, refl, some, subst, sym, true, ℕ, ◌+◌, ◌∷◌,
  ◌≡◌,
}
use proxyscene.Config.{Config}
use proxyscene.Store.{Store}
use proxyscene.Transition.{Area, Evidence, Host, Machine, Stage, TransitionRecord, complete}
use proxyscene.Transition.Areas.{HeldArea-more, cleaned, first_allowed, swapped_held, two_allowed}
use proxyscene.Transition.Compensate.{reserved, write_unless}
use proxyscene.Transition.Files.{
  allows, area_at, backup_path, compensation_evidence, encoded_store, evidence_of, main_path,
  swapped, with_area,
}
use proxyscene.Transition.Outcomes.{Ends, Ends-followed, Ends-returned, Ends-weaken, then_attempt}
use proxyscene.Transition.Restore.{
  AllRestored, Undoable-open, is_open, logged_undoable, open-Undoable,
}
use proxyscene.Transition.Sound.{
  HeldArea, IsLogged, IsOwnRecord, IsSound, Laws, Origin, Pending, UndoableOf, backup_list,
  evidence_list, main_list,
}
use proxyscene.Transition.Writes.{
  Ends-highest_generation, Ends-log, Ends-write_store_cas, logged-IsSound, truth-IsSound,
}

module _ {C R T X J : Type 0} (h : Host C R T X J) (o : Origin C R X) (laws : Laws h o) where
  -- A record of an open phase on the disk, and every resource as it was.
  abbrev pub IsUndone : TransitionRecord C R → Machine X J → Type 0
  IsUndone r m = IsLogged h o r m × (is_open r.phase ≡ true) × AllRestored h o m.world

  abbrev pub with_compensation : TransitionRecord C R → Store → TransitionRecord C R
  with_compensation r st = record r { compensation = some st }

  -- A record without a compensation allows no more than one with it.
  more_undoable :
      (r : TransitionRecord C R) (st : Store) (main backup : Area) (world : String → X)
      → none ≡ r.compensation
      → UndoableOf h o r main backup world
      → UndoableOf h o (with_compensation r st) main backup world
  unfolding compensation_evidence
  more_undoable r st main backup world e u =
      let d = h.content_digest in
      let more = evidence_list h o (some st) in
      let main0 = subst (λ c. HeldArea d (main_list h o c) main) (sym e) u.main_held in
      let backup0 =
        subst (λ c. HeldArea d (backup_list h o r.candidate_digest c) backup) (sym e)
          u.backup_held in
      record {
        main_held = HeldArea-more d _ _ (λ x q. first_allowed o.main_evidence more x q) main main0;
        backup_held =
            HeldArea-more d _ _
              (λ x q. two_allowed o.backup_evidence (evidence_of r.candidate_digest) more x q)
              backup backup0;
        slots = u.slots;
      }

  pub Ends-reserved :
      (app : Config) (r : TransitionRecord C R) (c : Option Store) (m : Machine X J)
      → c ≡ r.compensation
      → IsUndone r m
      → Ends
          (λ st m'. IsUndone (with_compensation r st) m')
          (IsSound h o)
          (IsSound h o)
          (reserved h app r c m)
  unfolding reserved
  Ends-reserved app r (some st) m e (l, opened, restored) =
      let same : r ≡ with_compensation r st = λ i. record r { compensation = sym e i } in
      Ends-returned (subst (λ x. IsUndone x m) same (l, opened, restored))
  Ends-reserved app r none m e u =
      Ends-followed _ _
        (Ends-weaken _ (Ends-highest_generation h (IsUndone r) (λ m' p. p) m u) (λ g m1 w. w)
          (λ m1 w. logged-IsSound h o laws r m1 w.0) (λ m1 w. logged-IsSound h o laws r m1 w.0))
        (λ highest m1 (l, opened, restored).
          then_attempt _ _ m1 (logged-IsSound h o laws r m1 l) (λ v room.
            let st : Store = record r.before { generation = highest + 1 } in
            let next = with_compensation r st in
            let own : IsOwnRecord h o next = record {
              same_main = l.1.same_main;
              same_backup = l.1.same_backup;
              same_before = l.1.same_before;
              prior = (
                highest + 1,
                ap (λ (b : Store). record b { generation = highest + 1 }) l.1.same_before,
              );
              new_digest = l.1.new_digest;
              own_steps = l.1.own_steps;
            } in
            let undoable =
              more_undoable r st m1.main m1.backup m1.world e (logged_undoable h o r m1 opened l) in
            Ends-followed _ _
              (Ends-weaken _
                (Ends-log h o laws (λ a b w. AllRestored h o w) app next m1
                  (logged-IsSound h o laws r m1 l) restored own
                  (Undoable-open h o r.phase next m1.main m1.backup m1.world opened undoable) l.3)
                (λ w m2 q. q) (λ m2 q. q.0) (λ m2 q. q.0))
              (λ w m2 q. Ends-returned (q.0, opened, q.1))))

  -- The swap of one path to a text that the record allows.
  pub Ends-swap_main :
      (r : TransitionRecord C R) (b : Bool) (seen : Evidence) (text : List ℕ) (m : Machine X J)
      → allows (main_list h o r.compensation) (evidence_of (h.content_digest text)) ≡ true
      → IsUndone r m
      → Ends
          (λ u m'. IsUndone r m')
          (IsSound h o)
          (IsSound h o)
          (write_unless h b main_path seen text m)
  unfolding write_unless with_area area_at
  Ends-swap_main r true seen text m fits u = Ends-returned u
  Ends-swap_main r false seen text m fits ((j, own, pending, tidy), opened, restored) =
      let u = open-Undoable h o r.phase r m.main m.backup m.world opened pending in
      let sound = truth-IsSound h o laws r m j own pending in
      let moved : (s : Stage) → Pending h o r.phase r (swapped text m.main s) m.backup m.world =
        λ s. Undoable-open h o r.phase r (swapped text m.main s) m.backup m.world opened (record {
          main_held = swapped_held h.content_digest _ text m.main s fits tidy.0 u.main_held;
          backup_held = u.backup_held;
          slots = u.slots;
        }) in
      let part : (s : Stage) → IsSound h o (record m { main = swapped text m.main s }) =
        λ s. truth-IsSound h o laws r (record m { main = swapped text m.main s }) j own (moved s) in
      Ends-write_store_cas h main_path seen text m tidy.0 sound sound part part
        ((j, own, moved complete, (cleaned text m.main, tidy.1)), opened, restored)

  pub Ends-swap_backup :
      (r : TransitionRecord C R) (b : Bool) (seen : Evidence) (text : List ℕ) (m : Machine X J)
      → allows
          (backup_list h o r.candidate_digest r.compensation)
          (evidence_of (h.content_digest text))
        ≡ true
      → IsUndone r m
      → Ends
          (λ u m'. IsUndone r m')
          (IsSound h o)
          (IsSound h o)
          (write_unless h b backup_path seen text m)
  unfolding write_unless with_area area_at
  Ends-swap_backup r true seen text m fits u = Ends-returned u
  Ends-swap_backup r false seen text m fits ((j, own, pending, tidy), opened, restored) =
      let u = open-Undoable h o r.phase r m.main m.backup m.world opened pending in
      let sound = truth-IsSound h o laws r m j own pending in
      let moved : (s : Stage) → Pending h o r.phase r m.main (swapped text m.backup s) m.world =
        λ s. Undoable-open h o r.phase r m.main (swapped text m.backup s) m.world opened (record {
          main_held = u.main_held;
          backup_held = swapped_held h.content_digest _ text m.backup s fits tidy.1 u.backup_held;
          slots = u.slots;
        }) in
      let part : (s : Stage) → IsSound h o (record m { backup = swapped text m.backup s }) = λ s.
        truth-IsSound h o laws r (record m { backup = swapped text m.backup s }) j own (moved s) in
      Ends-write_store_cas h backup_path seen text m tidy.1 sound sound part part
        ((j, own, moved complete, (tidy.0, cleaned text m.backup)), opened, restored)

  -- The evidence of a compensation that has a text.
  pub evidence_of_text :
      (st : Store) (text : List ℕ)
      → encoded_store h st ≡ ok text
      → evidence_list h o (some st) ≡ evidence_of (h.content_digest text) ∷ []
  unfolding compensation_evidence
  evidence_of_text st text e = rw e refl
