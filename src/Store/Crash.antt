-- ===== src/Store/Crash.antt =====
-- Saving and crashing: what the state file and its backup load to after `saveStore`, whatever its
-- two writes did and wherever it stopped (internal/manager/store.go).
use mathlib.Core.List.{Permᴰ}
use proxyscene.Common.{
  >>-eq-ok, >>=-eq-ok, All, Bool, Error, List, Result, [], ap, eqb, err, false,
  generation_exhausted, if◌then◌else◌, inl, inr, ltb, ok, ok-injective, refl, reject_if, some,
  store_too_large, subst, sym, true, ℕ, ◌+◌, ◌∙◌, ◌∷◌, ◌≡◌, ◌⊎◌,
}
use proxyscene.Config.{Config}
use proxyscene.Config.Validate.{ports_of}
use proxyscene.Store.{Store}
use proxyscene.Store.Checked.{IsValid-validate, validated-IsValid}
use proxyscene.Store.Persist.{
  Codec, Disk, FileState, Write, absent, bytes, decode_store, done, failed_after, failed_before,
  highest_store_generation, is_object, load_store_backup, load_store_raw, max_generation,
  next_candidate, or_backup, read_store, save_candidate, save_store, unreadable, write_candidate,
  written,
}
use proxyscene.Store.Valid.{IsValid}
use proxyscene.Store.Validate.{Checker, validate_store_semantics}

-- A load that gives what it gave before, or the candidate.
abbrev pub IsOldOrNew : Result Store → Store → Result Store → Type 0
IsOldOrNew old candidate new = (new ≡ old) ⊎ (new ≡ ok candidate)

or_backup_cases :
    (main backup : Result Store) (candidate : Store)
    → IsOldOrNew (or_backup main backup) candidate (or_backup main (ok candidate))
unfolding or_backup
or_backup_cases (ok st) backup candidate = inl refl
or_backup_cases (err e) backup candidate = inr refl

module _ (k : Checker) (j : Codec) (text : List ℕ) (candidate : Store)
    (reads : read_store k j text ≡ ok candidate) where
  load_new_backup :
      (owned : Result (Unit {0})) (main backup : FileState)
      → IsOldOrNew
          (load_store_raw k j owned (record { main = main; backup = backup }))
          candidate
          (load_store_raw k j owned (record { main = main; backup = bytes text }))
  unfolding load_store_raw
  load_new_backup (err e) main backup = inl refl
  load_new_backup (ok u) absent backup = inr (rw reads)
  load_new_backup (ok u) unreadable backup = inl refl
  load_new_backup (ok u) (bytes m) backup =
      rw reads (or_backup_cases (read_store k j m) (load_store_backup k j backup) candidate)

  load_new_main :
      (owned : Result (Unit {0})) (d : Disk) (backup : FileState)
      → IsOldOrNew
          (load_store_raw k j owned d)
          candidate
          (load_store_raw k j owned (record { main = bytes text; backup = backup }))
  unfolding load_store_raw
  load_new_main (err e) d backup = inl refl
  load_new_main (ok u) d backup = inr (rw reads)

  -- Each write leaves the old file or the new text.
  written_cases :
      (w : Write) (old : FileState) → (written w text old ≡ old) ⊎ (written w text old ≡ bytes text)
  unfolding written
  written_cases done old = inr refl
  written_cases failed_before old = inl refl
  written_cases failed_after old = inr refl

  load_after_backup :
      (owned : Result (Unit {0})) (first : Write) (d : Disk)
      → IsOldOrNew
          (load_store_raw k j owned d)
          candidate
          (load_store_raw k j owned (record d { backup = written first text d.backup }))
  load_after_backup owned first d = elim (written_cases first d.backup) [
    | inl e ↦ inl (ap (λ b. load_store_raw k j owned (record d { backup = b })) e)
    | inr e ↦ rw e (load_new_backup owned d.main d.backup)
  ]

  load_after_main :
      (owned : Result (Unit {0})) (first second : Write) (d : Disk)
      → IsOldOrNew (load_store_raw k j owned d) candidate (
          load_store_raw k j owned
            (record { main = written second text d.main; backup = written first text d.backup }))
  load_after_main owned first second d = elim (written_cases second d.main) [
    | inl e ↦ rw e (load_after_backup owned first d)
    | inr e ↦ rw e (load_new_main owned d (written first text d.backup))
  ]

  load_after_save :
      (owned : Result (Unit {0})) (first second : Write) (d : Disk) (st : Store)
      → text ≡ j.encode candidate
      → IsOldOrNew
          (load_store_raw k j owned d)
          candidate
          (load_store_raw k j owned (write_candidate j first second d st candidate).0)
  unfolding write_candidate
  load_after_save owned done done d st e = rw (← e) (load_after_main owned done done d)
  load_after_save owned done failed_before d st e =
      rw (← e) (load_after_main owned done failed_before d)
  load_after_save owned done failed_after d st e =
      rw (← e) (load_after_main owned done failed_after d)
  load_after_save owned failed_before second d st e = inl refl
  load_after_save owned failed_after second d st e =
      rw (← e) (load_after_backup owned failed_after d)

-- The disks that a crash of `saveStore` can leave: before its writes, after that of the backup,
-- and at its end.
abbrev pub crash_disks : Codec → Write → Write → Disk → Store → Store → List Disk
crash_disks j first second d st candidate =
    d
    ∷ record d { backup = written first (j.encode candidate) d.backup }
    ∷ (write_candidate j first second d st candidate).0
    ∷ []

module _ (k : Checker) (j : Codec) where
  saved_files :
      (first second : Write) (d : Disk) (st : Store) (r : Result Store) {d' : Disk} {st' : Store}
      → save_candidate k j first second d st r ≡ (d', st', ok tt)
      → (r ≡ ok st') × (d' ≡ record { main = bytes (j.encode st'); backup = bytes (j.encode st') })
  unfolding save_candidate
  saved_files first second d st (err e) h = cc (ap (λ y. y.2) h)
  saved_files failed_before second d st (ok c) h = cc (ap (λ y. y.2) h)
  saved_files failed_after second d st (ok c) h = cc (ap (λ y. y.2) h)
  saved_files done failed_before d st (ok c) h = cc (ap (λ y. y.2) h)
  saved_files done failed_after d st (ok c) h = cc (ap (λ y. y.2) h)
  saved_files done done d st (ok c) {d'} {st'} h =
      let same : c ≡ st' = ap (λ y. y.1) h in
      (
        ap ok same,
        sym (ap (λ y. y.0) h)
            ∙ ap {B = Disk} (λ s. record { main = bytes (j.encode s); backup = bytes (j.encode s) })
                same,
      )

  failed_files :
      (first second : Write) (d : Disk) (st : Store) (r : Result Store) {e : Error}
      → (save_candidate k j first second d st r).2 ≡ err e
      → ((save_candidate k j first second d st r).1 ≡ st)
        × (((save_candidate k j first second d st r).0.main ≡ d.main) ⊎ (second ≡ failed_after))
  unfolding save_candidate
  failed_files first second d st (err e) h = (refl, inl refl)
  failed_files failed_before second d st (ok c) h = (refl, inl refl)
  failed_files failed_after second d st (ok c) h = (refl, inl refl)
  failed_files done failed_before d st (ok c) h = (refl, inl refl)
  failed_files done failed_after d st (ok c) h = (refl, inr refl)
  failed_files done done d st (ok c) h = cc

-- A file with the text of a store that validates is read back as that store.
module _ (k : Checker) (j : Codec) (in_order : (c : Config) → Permᴰ (k.order c) (ports_of c))
    (on_time : (i : ℕ) → k.late i ≡ false) where
  decode_valid :
      (st : Store)
      → j.decode (j.encode st) ≡ some st
      → is_object (j.encode st) ≡ true
      → IsValid k st
      → decode_store k j (j.encode st) ≡ ok (st, false)
  unfolding decode_store
  decode_valid st round object v = rw (object, round) (IsValid-validate k in_order on_time st v)

  read_valid :
      (text : List ℕ) (x : Store × Bool)
      → decode_store k j text ≡ ok x
      → read_store k j text ≡ ok x.0
  unfolding read_store decode_store
  read_valid [] x h = cc
  read_valid (b ∷ rest) x h = rw h

  -- What the validation made of a candidate is valid, and its texts are clean.
  candidate-IsValid :
      (d : Disk) (st candidate : Store)
      → next_candidate k j d st ≡ ok candidate
      → IsValid k candidate
  unfolding next_candidate
  candidate-IsValid d st candidate h =
      let (highest, _, h) = >>=-eq-ok (highest_store_generation k j d) _ h in
      let generation = if ltb st.generation highest then highest else st.generation in
      let (_, h) = >>-eq-ok (reject_if (eqb generation max_generation) generation_exhausted) _ h in
      let (x, valid, h) =
        >>=-eq-ok (validate_store_semantics k (record st { generation = generation + 1 })) _ h in
      let (_, h) = >>-eq-ok (reject_if _ store_too_large) _ h in
      subst (IsValid k) (ok-injective h)
        (validated-IsValid k in_order (record st { generation = generation + 1 }) valid).0

  -- Wherever `saveStore` is cut off, and whatever its two writes did (an atomic write that fails
  -- leaves the old file or the new one), the next load gives what a load gave before, an error
  -- included, or the new candidate: no state in between and no loss. The text of the candidate must
  -- begin with a brace and decode to the candidate, and validation must meet its deadline.
  pub crash_safe :
      (owned : Result (Unit {0})) (first second : Write) (d : Disk) (st candidate : Store)
      → next_candidate k j d st ≡ ok candidate
      → j.decode (j.encode candidate) ≡ some candidate
      → is_object (j.encode candidate) ≡ true
      → All
          (λ left.
            IsOldOrNew (load_store_raw k j owned d) candidate (load_store_raw k j owned left))
          (crash_disks j first second d st candidate)
  crash_safe owned first second d st candidate h round object =
      let text = j.encode candidate in
      let v = candidate-IsValid d st candidate h in
      let reads = read_valid text (candidate, false) (decode_valid candidate round object v) in
      (
        inl refl,
        (
          load_after_backup k j text candidate reads owned first d,
          (load_after_save k j text candidate reads owned first second d st refl, tt),
        ),
      )

  -- A save that succeeds leaves both files with the text of the new store in memory, which is the
  -- candidate and is valid.
  pub saved :
      (first second : Write) (d : Disk) (st : Store) {d' : Disk} {st' : Store}
      → save_store k j first second d st ≡ (d', st', ok tt)
      → (next_candidate k j d st ≡ ok st')
        × (d' ≡ record { main = bytes (j.encode st'); backup = bytes (j.encode st') })
        × IsValid k st'
  unfolding save_store
  saved first second d st {d'} {st'} h =
      let (made, files) = saved_files k j first second d st (next_candidate k j d st) h in
      (made, files, candidate-IsValid d st st' made)

-- A save that fails leaves the store in memory as it was, and the main file too unless its own write
-- got as far as the rename.
pub save_failed :
    (k : Checker) (j : Codec) (first second : Write) (d : Disk) (st : Store) {e : Error}
    → (save_store k j first second d st).2 ≡ err e
    → ((save_store k j first second d st).1 ≡ st)
      × (((save_store k j first second d st).0.main ≡ d.main) ⊎ (second ≡ failed_after))
unfolding save_store
save_failed k j first second d st h = failed_files k j first second d st (next_candidate k j d st) h
