-- ===== src/Store/Generation.antt =====
-- The generation of a saved store (internal/manager/store.go and runtime_transition.go).
use mathlib.Core.List.{Permᴰ}
use proxyscene.Common.{
  >>-eq-ok, >>=-eq-ok, Bool, Result, accepted, ap, arith, eqb, err, false, generation_exhausted,
  if◌then◌else◌, le_trans, ltb, ok, ok-injective, reject_if, store_too_large, subst, sym, ℕ, ◌+◌,
  ◌-◌, ◌<◌, ◌∙◌, ◌≡◌, ◌≤◌,
}
use proxyscene.Config.{Config}
use proxyscene.Config.Validate.{ports_of}
use proxyscene.Store.{Store}
use proxyscene.Store.Checked.{validated-IsValid}
use proxyscene.Store.Persist.{
  Codec, Disk, FileState, absent, bytes, decode_store, file_generation, higher,
  highest_store_generation, max_generation, next_candidate, unreadable,
}
use proxyscene.Store.Validate.{Checker, validate_store_semantics}

-- The generation of every file that decodes is at most `g`.
abbrev pub IsAbove : Result (Store × Bool) → ℕ → Type 0
IsAbove (ok x) g = x.0.generation ≤ g
IsAbove (err e) g = Unit

abbrev pub IsFileBelow : Checker → Codec → ℕ → FileState → Type 0
IsFileBelow k j g absent = Unit
IsFileBelow k j g unreadable = Unit
IsFileBelow k j g (bytes text) = IsAbove (decode_store k j text) g

module _ (k : Checker) (j : Codec) where
  higher-ge :
      (g : ℕ) (r : Result (Store × Bool)) → (g ≤ higher k j g r) × IsAbove r (higher k j g r)
  unfolding higher
  higher-ge g (ok x) = ground arith
  higher-ge g (err e) = (omega arith, tt)

  file_generation_bound :
      (f : FileState) (g : ℕ) {h : ℕ}
      → file_generation k j f g ≡ ok h
      → (g ≤ h) × IsFileBelow k j h f
  unfolding file_generation
  file_generation_bound absent g e = (ground arith, tt)
  file_generation_bound unreadable g e = cc
  file_generation_bound (bytes text) g e =
      let (a, b) = higher-ge g (decode_store k j text) in
      subst (λ h. (g ≤ h) × IsAbove (decode_store k j text) h) (ok-injective e) (a, b)

  pub below_trans : (f : FileState) (g h : ℕ) → g ≤ h → IsFileBelow k j g f → IsFileBelow k j h f
  below_trans absent g h l b = tt
  below_trans unreadable g h l b = tt
  below_trans (bytes text) g h l b = raise (decode_store k j text) b
    where
      raise : (r : Result (Store × Bool)) → IsAbove r g → IsAbove r h
      raise (ok x) b = le_trans b l
      raise (err e) b = tt

  -- No file that decodes is above the highest generation.
  pub highest_below :
      (d : Disk) {h : ℕ}
      → highest_store_generation k j d ≡ ok h
      → IsFileBelow k j h d.main × IsFileBelow k j h d.backup
  unfolding highest_store_generation
  highest_below d e =
      let (g, first, rest) = >>=-eq-ok (file_generation k j d.main 0) _ e in
      let (_, main) = file_generation_bound d.main 0 first in
      let (more, backup) = file_generation_bound d.backup g rest in
      (below_trans d.main g _ more main, backup)

  file_generation-le :
      (f : FileState) (g m : ℕ) {h : ℕ}
      → file_generation k j f g ≡ ok h
      → g ≤ m
      → IsFileBelow k j m f
      → h ≤ m
  unfolding file_generation
  file_generation-le absent g m e l b = ground arith
  file_generation-le unreadable g m e l b = cc
  file_generation-le (bytes text) g m e l b =
      subst (λ h. h ≤ m) (ok-injective e) (higher-le (decode_store k j text) b)
    where
      higher-le : (r : Result (Store × Bool)) → IsAbove r m → higher k j g r ≤ m
      higher-le (ok x) b = ground arith
      higher-le (err e) b = l

-- Two files below a bound.
abbrev pub IsDiskBelow : Checker → Codec → ℕ → Disk → Type 0
IsDiskBelow k j g d = IsFileBelow k j g d.main × IsFileBelow k j g d.backup

highest_bound :
    (k : Checker) (j : Codec) (d : Disk) (m : ℕ) {h : ℕ}
    → highest_store_generation k j d ≡ ok h
    → IsDiskBelow k j m d
    → IsDiskBelow k j h d × (h ≤ m)
unfolding highest_store_generation
highest_bound k j d m e b =
    let (g, first, rest) = >>=-eq-ok (file_generation k j d.main 0) _ e in
    let (_, main) = file_generation_bound k j d.main 0 first in
    let (more, backup) = file_generation_bound k j d.backup g rest in
    (
      (below_trans k j d.main g _ more main, backup),
      file_generation-le k j d.backup g m rest
          (file_generation-le k j d.main 0 m first (omega arith) b.0) b.1,
    )

-- The arithmetic of the next generation `c` over the one in memory `a` and the highest of the disk
-- `h`.
module _ (a h max c : ℕ) where
  next-lt : c ≡ (if ltb a h then h else a) + 1 → a < c
  next-lt e = ground arith

  next-ge : c ≡ (if ltb a h then h else a) + 1 → h ≤ c - 1
  next-ge e = ground arith

  next-le :
      c ≡ (if ltb a h then h else a) + 1
      → eqb (if ltb a h then h else a) max ≡ false
      → a ≤ max
      → h ≤ max
      → c ≤ max
  next-le e other l m = ground arith

-- A candidate to be written has a generation above that of the store in memory and above that of
-- each file that decodes, and still of 64 bits: no generation is used for two contents, and none
-- wraps around. The generations in memory and on the disk are of 64 bits.
pub next_candidate_generation :
    (k : Checker) (j : Codec) (in_order : (c : Config) → Permᴰ (k.order c) (ports_of c)) (d : Disk)
    (st candidate : Store)
    → st.generation ≤ max_generation
    → IsDiskBelow k j max_generation d
    → next_candidate k j d st ≡ ok candidate
    → (st.generation < candidate.generation)
      × IsDiskBelow k j (candidate.generation - 1) d
      × (candidate.generation ≤ max_generation)
unfolding next_candidate
next_candidate_generation k j in_order d st candidate small disk h =
    let (highest, read, h) = >>=-eq-ok (highest_store_generation k j d) _ h in
    let generation : ℕ = if ltb st.generation highest then highest else st.generation in
    let (room, h) = >>-eq-ok (reject_if (eqb generation max_generation) generation_exhausted) _ h in
    let (x, valid, h) =
      >>=-eq-ok (validate_store_semantics k (record st { generation = generation + 1 })) _ h in
    let (_, h) = >>-eq-ok (reject_if _ store_too_large) _ h in
    let cleaned =
      (validated-IsValid k in_order (record st { generation = generation + 1 }) valid).1 in
    let made : candidate.generation ≡ generation + 1 =
      ap (λ (s : Store). s.generation) (sym (ok-injective h) ∙ cleaned) in
    let ((main, backup), most) = highest_bound k j d max_generation read disk in
    let g = candidate.generation in
    let below = next-ge st.generation highest max_generation g made in
    (
      next-lt st.generation highest max_generation g made,
      (
        below_trans k j d.main highest (g - 1) below main,
        below_trans k j d.backup highest (g - 1) below backup,
      ),
      next-le st.generation highest max_generation g made (accepted _ _ room) small most,
    )
