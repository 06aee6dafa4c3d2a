-- ===== src/Transition/Slots.antt =====
-- Steps and their resources (internal/manager/runtime_transition.go).
use proxyscene.Common.{
  Bool-cases, List, Option, String, [], ap, arith, contains, eq_iff, eq_refl, false, inl, inr, not,
  refl, subst, sym, true, ◌==◌, ◌||◌, ◌∷◌, ◌≡◌,
}
use proxyscene.Transition.{Host, Machine, Step}
use proxyscene.Transition.Compensate.{mark_restored, rejoin, with_slot}
use proxyscene.Transition.Sound.{Origin, Slots, names_of, touched}

pub touched-rejoin :
    (n : String) (front back : List Step)
    → touched n (rejoin front back) ≡ (touched n (rejoin front []) || touched n back)
unfolding touched
touched-rejoin n [] back = refl
touched-rejoin n (s ∷ front) back =
    ground (arith, touched-rejoin n front (s ∷ back), touched-rejoin n front (s ∷ []))

-- A step that is not running keeps its name untouched.
pub quiet_step :
    (n : String) (s : Step) (back : List Step)
    → (not s.started || s.restored) ≡ true
    → touched n back ≡ false
    → touched n (s ∷ back) ≡ false
unfolding touched
quiet_step n s back e q = ground (arith, e, q)

pub quiet_restored :
    (n : String) (s : Step) (back : List Step)
    → touched n back ≡ false
    → touched n (mark_restored s ∷ back) ≡ false
unfolding touched
quiet_restored n s back q = ground (arith, q)

running_is_touched :
    (s : Step) (back : List Step)
    → (not s.started || s.restored) ≡ false
    → touched s.name (s ∷ back) ≡ true
unfolding touched
running_is_touched s back e = ground (arith, e, eq_refl s.name)

pub running-touched :
    (s : Step) (front back : List Step)
    → (not s.started || s.restored) ≡ false
    → touched s.name (rejoin front (s ∷ back)) ≡ true
running-touched s front back e =
    let q = running_is_touched s back e in
    let p = touched-rejoin s.name front (s ∷ back) in ground (arith, p, q)

other_step :
    (n : String) (s : Step) (back : List Step)
    → (n == s.name) ≡ false
    → touched n (s ∷ back) ≡ touched n back
unfolding touched
other_step n s back e = ground (arith, e, eq_iff n s.name, eq_iff s.name n)

-- Only the name of the step can lose its touch.
pub marked-touched :
    (n : String) (s t : Step) (front back : List Step)
    → t.name ≡ s.name
    → (n == s.name) ≡ false
    → touched n (rejoin front (t ∷ back)) ≡ touched n (rejoin front (s ∷ back))
marked-touched n s t front back same other =
    let a = touched-rejoin n front (s ∷ back) in
    let b = touched-rejoin n front (t ∷ back) in
    let c = other_step n s back other in
    let d = other_step n t back (subst (λ x. (n == x) ≡ false) (sym same) other) in
    ground (arith, a, b, c, d)

begun_step :
    (n : String) (s : Step) (back : List Step)
    → touched n (record s { started = true } ∷ back) ≡ false
    → touched n (s ∷ back) ≡ false
unfolding touched
begun_step n s back e = ground (arith, e)

-- A step that starts touches more.
pub begun-touched :
    (n : String) (s : Step) (front back : List Step)
    → touched n (rejoin front (record s { started = true } ∷ back)) ≡ false
    → touched n (rejoin front (s ∷ back)) ≡ false
begun-touched n s front back q =
    let a = touched-rejoin n front (s ∷ back) in
    let b = touched-rejoin n front (record s { started = true } ∷ back) in
    let c = begun_step n s back in ground (arith, a, b, c, q)

module _ {C R T X J : Type 0} (h : Host C R T X J) (o : Origin C R X) where
  -- A resource that a running step may change.
  pub Slots-set :
      (core : Option C) (resources : Option R) (steps : List Step) (m : Machine X J) (name : String)
      (x : X)
      → touched name steps ≡ true
      → o.within core resources name (o.resource name) x
      → Slots h o core resources steps m.world
      → Slots h o core resources steps (with_slot name x m).world
  unfolding with_slot
  Slots-set core resources steps m name x running inside slots n = elim (Bool-cases (n == name)) [
    | inl e ↦ rw e (
        subst
          (λ k.
            o.within core resources k (o.resource k) x
            × (touched k steps ≡ false → x ≡ o.resource k))
          (sym ((eq_iff n name).0 e)) (inside, λ q. cc))
    | inr e ↦ rw e (slots n)
  ]

  pub slot_same : (m : Machine X J) (name : String) (x : X) → (with_slot name x m).world name ≡ x
  unfolding with_slot
  slot_same m name x = rw (eq_refl name) refl

pub names-rejoin :
    (front : List Step) (s t : Step) (rest : List Step)
    → s.name ≡ t.name
    → names_of (rejoin front (s ∷ rest)) ≡ names_of (rejoin front (t ∷ rest))
names-rejoin front s t rest e =
    same_behind front (s ∷ rest) (t ∷ rest) (ap (λ n. n ∷ names_of rest) e)
  where
    same_behind :
        (front a b : List Step)
        → names_of a ≡ names_of b
        → names_of (rejoin front a) ≡ names_of (rejoin front b)
    same_behind [] a b e = e
    same_behind (x ∷ front) a b e = same_behind front (x ∷ a) (x ∷ b) (ap (λ l. x.name ∷ l) e)

-- A step that has run is one of the transaction.
pub touched-names :
    (name : String) (steps : List Step)
    → touched name steps ≡ true
    → contains (names_of steps) name ≡ true
unfolding touched contains
touched-names name [] e = cc
touched-names name (s ∷ rest) e = elim (Bool-cases (s.name == name)) [
  | inl same ↦ ground (arith, e, same)
  | inr other ↦ ground (arith, e, other, touched-names name rest)
]
