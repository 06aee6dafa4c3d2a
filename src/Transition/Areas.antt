-- ===== src/Transition/Areas.antt =====
-- One path of the store and the file moved aside, under the writes of
-- internal/manager/runtime_transition_store.go.
use proxyscene.Common.{
  List, String, [], and-eq-true, arith, eq_iff, eq_refl, refl, subst, sym, true, ℕ, ◌==◌, ◌∷◌, ◌≡◌,
}
use proxyscene.Config.{bool_eqb}
use proxyscene.Config.RoundTrip.{bool_eqb_refl, bool_eqb→eq}
use proxyscene.Store.Persist.{FileState, absent, bytes, unreadable}
use proxyscene.Transition.{Area, Evidence, Stage, aside, complete, linked, untouched}
use proxyscene.Transition.Files.{
  allows, evidence_of, no_evidence, put_back, retired, same_evidence, swapped,
}
use proxyscene.Transition.Sound.{FileIn, FileInOrNone, Held, HeldArea}

pub same_evidence→eq : (a b : Evidence) → same_evidence a b ≡ true → a ≡ b
unfolding same_evidence
same_evidence→eq a b e =
    let (p, d) = and-eq-true (bool_eqb a.present b.present) (a.digest == b.digest) e in
    λ i. record {
      present = bool_eqb→eq a.present b.present p i;
      digest = (eq_iff a.digest b.digest).0 d i;
    }

pub same_evidence_refl : (a : Evidence) → same_evidence a a ≡ true
unfolding same_evidence
same_evidence_refl a = rw (bool_eqb_refl a.present) (eq_refl a.digest)

pub allows_first : (a : Evidence) (rest : List Evidence) → allows (a ∷ rest) a ≡ true
unfolding allows
allows_first a rest = rw (same_evidence_refl a) refl

pub allows_one : (a b : Evidence) → allows (a ∷ []) b ≡ true → a ≡ b
unfolding allows
allows_one a b e = same_evidence→eq a b (ground (arith, e))

pub allows_later :
    (a b : Evidence) (rest : List Evidence) → allows rest b ≡ true → allows (a ∷ rest) b ≡ true
unfolding allows
allows_later a b rest e = ground (arith, e)

pub first_allowed :
    (a : Evidence) (rest : List Evidence) (e : Evidence)
    → allows (a ∷ []) e ≡ true
    → allows (a ∷ rest) e ≡ true
unfolding allows
first_allowed a rest e q = ground (arith, q)

pub two_allowed :
    (a b : Evidence) (rest : List Evidence) (e : Evidence)
    → allows (a ∷ b ∷ []) e ≡ true
    → allows (a ∷ b ∷ rest) e ≡ true
unfolding allows
two_allowed a b rest e q = ground (arith, q)

pub cleaned : (text : List ℕ) (a : Area) → (swapped text a complete).claimed ≡ absent
unfolding swapped
cleaned text a = refl

module _ (digest : List ℕ → String) (es : List Evidence) where
  pub moved-Held : (f : FileState) → FileIn digest es f → Held digest es f absent
  moved-Held absent p = p
  moved-Held unreadable p = p
  moved-Held (bytes b) p = (p, tt)

  linked-Held :
      (f : FileState) (text : List ℕ)
      → allows es (evidence_of (digest text)) ≡ true
      → FileIn digest es f
      → Held digest es f (bytes text)
  linked-Held absent text q p = q
  linked-Held unreadable text q p = p
  linked-Held (bytes b) text q p = (p, q)

  pub file_held : (a : Area) → a.claimed ≡ absent → HeldArea digest es a → FileIn digest es a.file
  file_held a clean held = subst (λ c. Held digest es c a.file) clean held

  -- A swap to a text of the list.
  pub swapped_held :
      (text : List ℕ) (a : Area) (s : Stage)
      → allows es (evidence_of (digest text)) ≡ true
      → a.claimed ≡ absent
      → HeldArea digest es a
      → HeldArea digest es (swapped text a s)
  unfolding swapped
  swapped_held text a untouched new clean held = held
  swapped_held text a aside new clean held = moved-Held a.file (file_held a clean held)
  swapped_held text a linked new clean held = linked-Held a.file text new (file_held a clean held)
  swapped_held text a complete new clean held = new

  kept_file : (c f : FileState) → f ≡ absent → Held digest es c f → FileIn digest es c
  kept_file absent f free held = subst (FileIn digest es) free held
  kept_file unreadable f free held = held
  kept_file (bytes b) f free held = held.0

  -- What was moved aside goes back to a free path.
  pub put_back_held :
      (a : Area) (s : Stage)
      → a.file ≡ absent
      → HeldArea digest es a
      → HeldArea digest es (put_back a s)
  unfolding put_back
  put_back_held a untouched free held = held
  put_back_held a aside free held = held
  put_back_held a linked free held = kept_file a.claimed a.file free held
  put_back_held a complete free held = kept_file a.claimed a.file free held

  there_file :
      (f : FileState) {b : List ℕ} → f ≡ bytes b → FileInOrNone digest es f → FileIn digest es f
  there_file absent there held = cc
  there_file unreadable there held = held
  there_file (bytes x) there held = held

  left_file : (c f : FileState) {b : List ℕ} → f ≡ bytes b → Held digest es c f → FileIn digest es f
  left_file absent f there held = held
  left_file unreadable f there held = absurd held
  left_file (bytes x) f there held = there_file f there held.1

  -- What was moved aside goes where the path has a file.
  pub retired_held :
      (a : Area) (s : Stage) {b : List ℕ}
      → a.file ≡ bytes b
      → HeldArea digest es a
      → HeldArea digest es (retired a s)
  unfolding retired
  retired_held a untouched there held = held
  retired_held a aside there held = held
  retired_held a linked there held = left_file a.claimed a.file there held
  retired_held a complete there held = left_file a.claimed a.file there held

module _ (digest : List ℕ → String) (es more : List Evidence)
    (grow : (e : Evidence) → allows es e ≡ true → allows more e ≡ true) where
  pub FileIn-more : (f : FileState) → FileIn digest es f → FileIn digest more f
  FileIn-more absent p = grow no_evidence p
  FileIn-more unreadable p = p
  FileIn-more (bytes b) p = grow (evidence_of (digest b)) p

  or_none_more : (f : FileState) → FileInOrNone digest es f → FileInOrNone digest more f
  or_none_more absent p = p
  or_none_more unreadable p = p
  or_none_more (bytes b) p = grow (evidence_of (digest b)) p

  Held-more : (c f : FileState) → Held digest es c f → Held digest more c f
  Held-more absent f p = FileIn-more f p
  Held-more unreadable f p = p
  Held-more (bytes b) f p = (grow (evidence_of (digest b)) p.0, or_none_more f p.1)

  pub HeldArea-more : (a : Area) → HeldArea digest es a → HeldArea digest more a
  HeldArea-more a p = Held-more a.claimed a.file p

-- A file that is exactly there is held.
pub exactly_held :
    (digest : List ℕ → String) (e : Evidence) (rest : List Evidence) (a : Area)
    → a.claimed ≡ absent
    → FileIn digest (e ∷ []) a.file
    → HeldArea digest (e ∷ rest) a
exactly_held digest e rest a clean there =
    subst (λ c. Held digest (e ∷ rest) c a.file) (sym clean)
      (FileIn-more digest (e ∷ []) (e ∷ rest) (λ x q. first_allowed e rest x q) a.file there)
