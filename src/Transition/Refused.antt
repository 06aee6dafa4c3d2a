-- ===== src/Transition/Refused.antt =====
-- A transaction that is not finished, and the generations of a new one
-- (internal/manager/runtime_transition.go).
use proxyscene.Common.{
  Bool, Result, String, arith, err, false, if◌then◌else◌, leb, ltb, no_generation, ok,
  pending_transition, refl, reject_if, transition_too_large, true, ℕ, ℤ, ◌+◌, ◌-◌, ◌<◌, ◌≡◌,
}
use proxyscene.Config.{Config}
use proxyscene.Store.{Store}
use proxyscene.Store.Persist.{max_generation}
use proxyscene.Transition.{
  Host, Machine, RecordFile, no_record, record_text, tick, unreadable_record,
}
use proxyscene.Transition.Outcomes.{Ends, then_attempt, then_observe}
use proxyscene.Transition.Planning.{SyncMode, commit_store_mutation, next_generation}
use proxyscene.Transition.Receipt.{has_transition, is_pending, max_transition_bytes}

module _ {C R T X J : Type 0} (h : Host C R T X J) where
  abbrev pub IsUntouched : Machine X J → Machine X J → Type 0
  IsUntouched m m' =
      (m'.main ≡ m.main) × (m'.backup ≡ m.backup) × (m'.journal ≡ m.journal) × (m'.world ≡ m.world)

  no_success :
      (j : RecordFile J) (text : J) (pending : Bool) {u : Unit {0}}
      → j ≡ record_text text
      → is_pending h j ≡ ok pending
      → reject_if pending pending_transition ≡ ok u
      → ⊥
  unfolding is_pending
  no_success no_record text pending e read passed = cc
  no_success unreadable_record text pending e read passed = cc
  no_success (record_text t) text true e read passed = cc
  no_success (record_text t) text false e read passed =
      pending_one (ltb max_transition_bytes (h.record_size t)) read
    where
      pending_one :
          (large : Bool) → (if large then err transition_too_large else ok true) ≡ ok false → ⊥
      pending_one true e = cc
      pending_one false e = cc

  -- While a record is on the disk no mutation succeeds, and none changes a file, a resource or the
  -- record, whatever the mutation and the disk do.
  pub mutation_refused :
      (join : String → ℤ → String) (app : Config) (st : Store) (mutate : Store → Result Store)
      (mode : SyncMode) (m : Machine X J) (text : J)
      → m.journal ≡ record_text text
      → Ends
          (λ x m'. ⊥)
          (IsUntouched m)
          (IsUntouched m)
          (commit_store_mutation h join app st mutate mode m)
  unfolding commit_store_mutation has_transition
  mutation_refused join app st mutate mode m text there =
      let same : IsUntouched m (tick m) = (refl, refl, refl, refl) in
      then_observe h _ _ m same same (λ pending read.
        then_attempt _ _ (tick m) same
          (λ u passed. absurd (no_success m.journal text pending there read passed)))

  -- The next generation is above both, with one of 64 bits left.
  pub next_generation_room :
      (highest : ℕ) (before : Store) {g : ℕ}
      → next_generation h highest before ≡ ok g
      → (before.generation < g) × (highest < g) × (g < max_generation)
  unfolding next_generation
  next_generation_room highest before {g} e = by_arith before.generation highest max_generation g e
    where
      by_arith :
          (b highest max g : ℕ)
          → (let k = if ltb highest b then b else highest in
              if leb (max - 1) k then err no_generation else ok (k + 1))
            ≡ ok g
          → (b < g) × (highest < g) × (g < max)
      by_arith b highest max g e = ground arith
