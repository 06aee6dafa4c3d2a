-- ===== src/Transition/Stable.antt =====
-- The invariant of the transaction stands while files moved aside are put back or removed
-- (internal/manager/runtime_transition_store.go).
use proxyscene.Common.{List, String, [], ap, inl, inr, subst, ℕ, ◌∷◌, ◌≡◌, ◌⊎◌}
use proxyscene.Store.Persist.{FileState, absent, bytes}
use proxyscene.Transition.{
  Area, Evidence, Host, Machine, Phase, RecordFile, Stage, TransitionRecord, applying, aside,
  committed, committing, compensating, complete, linked, no_record, other_phase, record_text,
  unreadable_record, untouched,
}
use proxyscene.Transition.Areas.{allows_one, put_back_held, retired_held}
use proxyscene.Transition.Files.{
  area_at, backup_path, evidence_of, main_path, no_evidence, put_back, retired, with_area,
}
use proxyscene.Transition.Settle.{IsStableAt}
use proxyscene.Transition.Sound.{
  FileIn, IsAtomic, IsOwnRecord, IsTidy, NewFiles, Origin, Pending, Sound, UndoableOf, backup_list,
  main_list,
}

-- A property of the two paths that settling keeps.
pub record IsStable (P : Area → Area → Type 0) : Type 0 where
  pub main_back :
      (a b : Area) (s : Stage) {x : List ℕ}
      → a.claimed ≡ bytes x
      → a.file ≡ absent
      → P a b
      → P (put_back a s) b
  pub main_retired :
      (a b : Area) (s : Stage) {x y : List ℕ}
      → a.claimed ≡ bytes x
      → a.file ≡ bytes y
      → P a b
      → P (retired a s) b
  pub backup_back :
      (a b : Area) (s : Stage) {x : List ℕ}
      → b.claimed ≡ bytes x
      → b.file ≡ absent
      → P a b
      → P a (put_back b s)
  pub backup_retired :
      (a b : Area) (s : Stage) {x y : List ℕ}
      → b.claimed ≡ bytes x
      → b.file ≡ bytes y
      → P a b
      → P a (retired b s)

moved_aside : {f : FileState} {x : List ℕ} → f ≡ absent → f ≡ bytes x → ⊥
moved_aside none_there there = cc

pub new_is_there :
    (digest : List ℕ → String) (d : String) (a : Area)
    → a.file ≡ absent
    → FileIn digest (evidence_of d ∷ []) a.file
    → ⊥
new_is_there digest d a free there =
    let e = subst (FileIn digest (evidence_of d ∷ [])) free there in
    let clash = ap (λ (x : Evidence). x.present) (allows_one (evidence_of d) no_evidence e) in cc

pub stable_when_tidy : (P : Area → Area → Type 0) → ((a b : Area) → P a b → IsTidy a b) → IsStable P
stable_when_tidy P tidy = record {
  main_back = λ a b s moved free p. absurd (moved_aside (tidy a b p).0 moved);
  main_retired = λ a b s moved there p. absurd (moved_aside (tidy a b p).0 moved);
  backup_back = λ a b s moved free p. absurd (moved_aside (tidy a b p).1 moved);
  backup_retired = λ a b s moved there p. absurd (moved_aside (tidy a b p).1 moved);
}

pub stable_both :
    (P Q : Area → Area → Type 0) → IsStable P → IsStable Q → IsStable (λ a b. P a b × Q a b)
stable_both P Q p q = record {
  main_back = λ a b s c f w. (p.main_back a b s c f w.0, q.main_back a b s c f w.1);
  main_retired = λ a b s c f w. (p.main_retired a b s c f w.0, q.main_retired a b s c f w.1);
  backup_back = λ a b s c f w. (p.backup_back a b s c f w.0, q.backup_back a b s c f w.1);
  backup_retired = λ a b s c f w. (p.backup_retired a b s c f w.0, q.backup_retired a b s c f w.1);
}

either_map : {A B C D : Type 0} → (A → C) → (B → D) → A ⊎ B → C ⊎ D
either_map f g (inl a) = inl (f a)
either_map f g (inr b) = inr (g b)

pub stable_either :
    (P Q : Area → Area → Type 0) → IsStable P → IsStable Q → IsStable (λ a b. P a b ⊎ Q a b)
stable_either P Q p q = record {
  main_back = λ a b s c f w. either_map (p.main_back a b s c f) (q.main_back a b s c f) w;
  main_retired = λ a b s c f w. either_map (p.main_retired a b s c f) (q.main_retired a b s c f) w;
  backup_back = λ a b s c f w. either_map (p.backup_back a b s c f) (q.backup_back a b s c f) w;
  backup_retired =
      λ a b s c f w. either_map (p.backup_retired a b s c f) (q.backup_retired a b s c f) w;
}

pub stable_given : (K : Type 0) → IsStable (λ a b. K)
stable_given K = record {
  main_back = λ a b s c f w. w;
  main_retired = λ a b s c f w. w;
  backup_back = λ a b s c f w. w;
  backup_retired = λ a b s c f w. w;
}

pub stable_logged :
    (K : Type 0) (A B : K → Type 0) (Q : K → Area → Area → Type 0)
    → ((k : K) → IsStable (Q k))
    → IsStable (λ a b. (k : K) × A k × B k × Q k a b)
stable_logged K A B Q q = record {
  main_back = λ a b s c f w. (w.0, w.1, w.2, (q w.0).main_back a b s c f w.3);
  main_retired = λ a b s c f w. (w.0, w.1, w.2, (q w.0).main_retired a b s c f w.3);
  backup_back = λ a b s c f w. (w.0, w.1, w.2, (q w.0).backup_back a b s c f w.3);
  backup_retired = λ a b s c f w. (w.0, w.1, w.2, (q w.0).backup_retired a b s c f w.3);
}

pub stable_around :
    (P Q : Area → Area → Type 0) (K : Type 0)
    → IsStable P
    → IsStable Q
    → IsStable (λ a b. P a b × K × Q a b)
stable_around P Q K p q = record {
  main_back = λ a b s c f w. (p.main_back a b s c f w.0, w.1, q.main_back a b s c f w.2);
  main_retired = λ a b s c f w. (p.main_retired a b s c f w.0, w.1, q.main_retired a b s c f w.2);
  backup_back = λ a b s c f w. (p.backup_back a b s c f w.0, w.1, q.backup_back a b s c f w.2);
  backup_retired =
      λ a b s c f w. (p.backup_retired a b s c f w.0, w.1, q.backup_retired a b s c f w.2);
}

module _ {C R T X J : Type 0} (h : Host C R T X J) (o : Origin C R X) where
  stable_undoable :
      (r : TransitionRecord C R) (world : String → X) → IsStable (λ a b. UndoableOf h o r a b world)
  stable_undoable r world =
      let d = h.content_digest in
      let ms = main_list h o r.compensation in
      let bs = backup_list h o r.candidate_digest r.compensation in
      record {
        main_back = λ a b s c f u. record {
          main_held = put_back_held d ms a s f u.main_held;
          backup_held = u.backup_held;
          slots = u.slots;
        };
        main_retired = λ a b s c f u. record {
          main_held = retired_held d ms a s f u.main_held;
          backup_held = u.backup_held;
          slots = u.slots;
        };
        backup_back = λ a b s c f u. record {
          backup_held = put_back_held d bs b s f u.backup_held;
          main_held = u.main_held;
          slots = u.slots;
        };
        backup_retired = λ a b s c f u. record {
          backup_held = retired_held d bs b s f u.backup_held;
          main_held = u.main_held;
          slots = u.slots;
        };
      }

  new_main_retired :
      (d : String) (a : Area) (s : Stage)
      → FileIn h.content_digest (evidence_of d ∷ []) a.file
      → FileIn h.content_digest (evidence_of d ∷ []) (retired a s).file
  unfolding retired
  new_main_retired d a untouched p = p
  new_main_retired d a aside p = p
  new_main_retired d a linked p = p
  new_main_retired d a complete p = p

  stable_new : (d : String) → IsStable (NewFiles h o d)
  stable_new d = record {
    main_back = λ a b s c f w. absurd (new_is_there h.content_digest d a f w.0);
    main_retired = λ a b s c f w. (new_main_retired d a s w.0, w.1, w.2);
    backup_back = λ a b s c f w. absurd (moved_aside w.2 c);
    backup_retired = λ a b s c f w. absurd (moved_aside w.2 c);
  }

  pub stable-Pending :
      (phase : Phase) (r : TransitionRecord C R) (world : String → X)
      → IsStable (λ a b. Pending h o phase r a b world)
  stable-Pending applying r world = stable_undoable r world
  stable-Pending compensating r world = stable_undoable r world
  stable-Pending committing r world =
      stable_both _ _ (stable_given _)
        (stable_either _ _ (stable_undoable r world) (stable_new r.candidate_digest))
  stable-Pending committed r world =
      stable_both _ _ (stable_given _) (stable_new r.candidate_digest)
  stable-Pending (other_phase p) r world = stable_given ⊥

  atomic-IsTidy : (a b : Area) (world : String → X) → IsAtomic h o a b world → IsTidy a b
  atomic-IsTidy a b world (inl (_, inl (p, q))) = (p.0, q.0)
  atomic-IsTidy a b world (inl (_, inr (_, _, _, p, q))) = (p.0, q.0)
  atomic-IsTidy a b world (inr (_, _, _, p, q)) = (p.0, q.0)

  pub stable-Sound :
      (journal : RecordFile J) (world : String → X) → IsStable (λ a b. Sound h o journal a b world)
  stable-Sound no_record world = stable_when_tidy _ (λ a b p. atomic-IsTidy a b world p)
  stable-Sound unreadable_record world = stable_given ⊥
  stable-Sound (record_text text) world =
      stable_logged _ _ _ _ (λ r. stable-Pending r.phase r world)

  pub stable_ready :
      (r : TransitionRecord C R) (journal : RecordFile J) (world : String → X)
      → IsStable
          (λ a b. Sound h o journal a b world × IsOwnRecord h o r × UndoableOf h o r a b world)
  stable_ready r journal world =
      stable_around _ _ _ (stable-Sound journal world) (stable_undoable r world)

  pub stable_found :
      (r : TransitionRecord C R) (journal : RecordFile J) (world : String → X)
      → IsStable
          (λ a b. Sound h o journal a b world × IsOwnRecord h o r × Pending h o r.phase r a b world)
  stable_found r journal world =
      stable_around _ _ _ (stable-Sound journal world) (stable-Pending r.phase r world)

-- On the machine, where the rest stays.
module _ {X J : Type 0} (P : RecordFile J → (String → X) → Area → Area → Type 0)
    (stable : (j : RecordFile J) (w : String → X) → IsStable (P j w)) where
  abbrev pub OnMachine : Machine X J → Type 0
  OnMachine m = P m.journal m.world m.main m.backup

  pub stable_at_main : IsStableAt main_path OnMachine
  unfolding area_at with_area
  stable_at_main = record {
    ticks = λ m p. p;
    goes_back = λ m s c f p. (stable m.journal m.world).main_back m.main m.backup s c f p;
    is_retired = λ m s c f p. (stable m.journal m.world).main_retired m.main m.backup s c f p;
  }

  pub stable_at_backup : IsStableAt backup_path OnMachine
  unfolding area_at with_area
  stable_at_backup = record {
    ticks = λ m p. p;
    goes_back = λ m s c f p. (stable m.journal m.world).backup_back m.main m.backup s c f p;
    is_retired = λ m s c f p. (stable m.journal m.world).backup_retired m.main m.backup s c f p;
  }
