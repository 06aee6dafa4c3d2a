-- ===== src/Transition/Files.antt =====
-- The files of the store as the transaction uses them: `storeEvidence`, `encodedRuntimeStore`, the
-- checks of the two files, `writeRuntimeStoreCAS` and `settleRuntimeStoreQuarantines`
-- (internal/manager/runtime_transition.go and runtime_transition_store.go). The swap that
-- `writeBoundedArtifactCAS` makes has three writes, the move aside, the new file and the removal of
-- what was moved; it is not run over a file moved aside earlier, which the model refuses.
use proxyscene.Common.{
  Bool, List, Option, Result, String, [], err, false, foreign_quarantine, length, ltb, none, not,
  ok, reject_if, some, store_changed, store_not_committed, store_too_large, true, unreadable_file,
  ℕ, ◌&&◌, ◌==◌, ◌>>=◌, ◌>>◌, ◌||◌, ◌∷◌,
}
use proxyscene.Config.{bool_eqb}
use proxyscene.Store.{Store}
use proxyscene.Store.Persist.{FileState, absent, bytes, max_store_bytes, unreadable}
use proxyscene.Store.Validate.{validate_store_semantics}
use proxyscene.Transition.{
  Action, Area, Evidence, Host, Machine, Stage, TransitionRecord, aside, attempt, change, complete,
  give, linked, observe, untouched, ◌▷◌,
}

unfoldable pub same_evidence : Evidence → Evidence → Bool
same_evidence a b = bool_eqb a.present b.present && a.digest == b.digest

-- `runtimeStoreEvidence{}`
abbrev pub no_evidence : Evidence
no_evidence = record { present = false; digest = "" }

-- `runtimeStoreEvidence{true, digest}`
abbrev pub evidence_of : String → Evidence
evidence_of d = record { present = true; digest = d }

-- `slices.Contains` of evidence
unfoldable pub allows : List Evidence → Evidence → Bool
allows [] e = false
allows (a ∷ rest) e = same_evidence a e || allows rest e

-- The file of a path, and what is moved aside, at each stage of a swap.
unfoldable pub swapped : List ℕ → Area → Stage → Area
swapped text a untouched = a
swapped text a aside = record { file = absent; claimed = a.file }
swapped text a linked = record { file = bytes text; claimed = a.file }
swapped text a complete = record { file = bytes text; claimed = absent }

-- `restoreGlobalProxyQuarantine` and `removeGlobalProxyQuarantine`
unfoldable pub put_back : Area → Stage → Area
put_back a untouched = a
put_back a aside = a
put_back a linked = record { file = a.claimed; claimed = absent }
put_back a complete = record { file = a.claimed; claimed = absent }

unfoldable pub retired : Area → Stage → Area
retired a untouched = a
retired a aside = a
retired a linked = record a { claimed = absent }
retired a complete = record a { claimed = absent }

-- The path of the main file or of its backup.
pub data StorePath : Type 0 where
  main_path backup_path : StorePath

module _ {X J : Type 0} where
  unfoldable pub area_at : StorePath → Machine X J → Area
  area_at main_path m = m.main
  area_at backup_path m = m.backup

  unfoldable pub with_area : StorePath → Machine X J → Area → Machine X J
  with_area main_path m a = record m { main = a }
  with_area backup_path m a = record m { backup = a }

module _ {C R T X J : Type 0} (h : Host C R T X J) where
  -- `storeEvidence`, `artifactStoreEvidence`
  unfoldable pub file_evidence : FileState → Result Evidence
  file_evidence absent = ok no_evidence
  file_evidence unreadable = err unreadable_file
  file_evidence (bytes text) = ok (evidence_of (h.content_digest text))

  unfoldable pub store_evidence : StorePath → Action X J Evidence
  store_evidence path = observe h (λ m. file_evidence (area_at path m).file)

  -- `encodedRuntimeStore`
  unfoldable pub encoded_store : Store → Result (List ℕ)
  encoded_store st = do
    x ← validate_store_semantics h.checker st
    let text = h.codec.encode x.0
    reject_if (ltb max_store_bytes (length text)) store_too_large
    ok text

  -- `validateRuntimeStoreUnchanged`
  unfoldable pub check_unchanged : TransitionRecord C R → Action X J (Unit {0})
  check_unchanged r = store_evidence main_path ▷ λ main. store_evidence backup_path ▷ λ backup.
      attempt (
        reject_if
          (not (same_evidence main r.before_main) || not (same_evidence backup r.before_backup))
          store_changed)

  unfoldable pub check_committed_file : TransitionRecord C R → StorePath → Action X J (Unit {0})
  check_committed_file r path = store_evidence path ▷ λ seen.
      attempt
        (reject_if (not (same_evidence seen (evidence_of r.candidate_digest))) store_not_committed)

  -- `validateRuntimeStoreCommitted`
  unfoldable pub check_committed : TransitionRecord C R → Action X J (Unit {0})
  check_committed r = check_committed_file r main_path ▷ λ u. check_committed_file r backup_path

  -- The write of a swap, where nothing is moved aside.
  unfoldable pub swap_where : FileState → StorePath → List ℕ → Action X J (Unit {0})
  swap_where absent path text = change h (λ s m. with_area path m (swapped text (area_at path m) s))
  swap_where unreadable path text = attempt (err foreign_quarantine)
  swap_where (bytes b) path text = attempt (err foreign_quarantine)

  unfoldable pub swap : StorePath → List ℕ → Action X J (Unit {0})
  swap path text m = swap_where (area_at path m).claimed path text m

  -- `writeRuntimeStoreCAS`
  unfoldable pub write_store_cas : StorePath → Evidence → List ℕ → Action X J (Unit {0})
  write_store_cas path expected text = store_evidence path ▷ λ seen.
      attempt (reject_if (not (same_evidence seen expected)) store_changed) ▷ λ u. swap path text

  -- The file of the path, once what is moved aside is known to be allowed.
  unfoldable pub settle_file : StorePath → List Evidence → FileState → Action X J (Unit {0})
  settle_file path allowed absent = change h (λ s m. with_area path m (put_back (area_at path m) s))
  settle_file path allowed unreadable = attempt (err unreadable_file)
  settle_file path allowed (bytes text) =
      attempt
        (reject_if (not (allows allowed (evidence_of (h.content_digest text)))) foreign_quarantine)
      ▷ λ u. change h (λ s m. with_area path m (retired (area_at path m) s))

  unfoldable pub settle_claimed : StorePath → List Evidence → FileState → Action X J (Unit {0})
  settle_claimed path allowed absent = give tt
  settle_claimed path allowed unreadable = attempt (err unreadable_file)
  settle_claimed path allowed (bytes text) =
      attempt
        (reject_if (not (allows allowed (evidence_of (h.content_digest text)))) foreign_quarantine)
      ▷ λ u. observe h (λ m. ok (area_at path m).file) ▷ λ file. settle_file path allowed file

  -- `settleRuntimeStoreQuarantine`
  unfoldable pub settle : StorePath → List Evidence → Action X J (Unit {0})
  settle path allowed =
      observe h (λ m. ok (area_at path m).claimed) ▷ λ claimed. settle_claimed path allowed claimed

  -- The evidence of the compensation, once there is one.
  unfoldable pub compensation_evidence : Option Store → Result (List Evidence)
  compensation_evidence none = ok []
  compensation_evidence (some st) = do
    text ← encoded_store st
    ok (evidence_of (h.content_digest text) ∷ [])

  -- `settleRuntimeStoreQuarantines`
  unfoldable pub settle_all : TransitionRecord C R → Action X J (Unit {0})
  settle_all r = attempt (compensation_evidence r.compensation) ▷ λ compensation.
      settle main_path (r.before_main ∷ evidence_of r.candidate_digest ∷ compensation) ▷ λ u.
      settle backup_path (r.before_backup ∷ evidence_of r.candidate_digest ∷ compensation)
