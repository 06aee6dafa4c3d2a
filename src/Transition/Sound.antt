-- ===== src/Transition/Sound.antt =====
-- The invariant of the transaction (internal/manager/runtime_transition.go): what the files, the
-- record and the resources of a machine satisfy at every moment, whoever stops.
use proxyscene.Common.{
  All, Bool, List, Option, Result, String, [], contains, err, false, none, not, ok, some, true, ℕ,
  ◌&&◌, ◌==◌, ◌||◌, ◌∷◌, ◌≡◌, ◌⊎◌,
}
use proxyscene.Config.{Config}
use proxyscene.Store.{Store}
use proxyscene.Store.Persist.{FileState, absent, bytes, unreadable}
use proxyscene.Transition.{
  Area, Ending, Evidence, Host, Machine, MutationPlan, Phase, RecordFile, Step, TransitionRecord,
  Undo, applying, broken, checkpoint, committed, committing, compensating, cut_off, no_record,
  other_phase, raised, record_text, returned, stopped, undone, unreadable_record,
}
use proxyscene.Transition.Commit.{execute_on}
use proxyscene.Transition.Compensate.{undo_on}
use proxyscene.Transition.Files.{
  allows, compensation_evidence, encoded_store, evidence_of, no_evidence,
}

-- The file of a path has evidence of the list.
abbrev pub FileIn : (List ℕ → String) → List Evidence → FileState → Type 0
FileIn digest es absent = allows es no_evidence ≡ true
FileIn digest es unreadable = ⊥
FileIn digest es (bytes text) = allows es (evidence_of (digest text)) ≡ true

-- The same, or no file.
abbrev pub FileInOrNone : (List ℕ → String) → List Evidence → FileState → Type 0
FileInOrNone digest es absent = Unit
FileInOrNone digest es unreadable = ⊥
FileInOrNone digest es (bytes text) = allows es (evidence_of (digest text)) ≡ true

-- Where a file is moved aside, it has evidence of the list, and its path too unless it is free.
abbrev pub Held : (List ℕ → String) → List Evidence → FileState → FileState → Type 0
Held digest es absent file = FileIn digest es file
Held digest es unreadable file = ⊥
Held digest es (bytes text) file =
    (allows es (evidence_of (digest text)) ≡ true) × FileInOrNone digest es file

abbrev pub HeldArea : (List ℕ → String) → List Evidence → Area → Type 0
HeldArea digest es a = Held digest es a.claimed a.file

-- A step with the name has started and is not restored.
unfoldable pub touched : String → List Step → Bool
touched name [] = false
touched name (s ∷ rest) = (s.name == name && s.started && not s.restored) || touched name rest

abbrev pub names_of : List Step → List String
names_of [] = []
names_of (s ∷ rest) = s.name ∷ names_of rest

-- What the transaction started from, and what is known of its resources: `within` of a resource
-- that the plan can restore, `applied` of one on which a step succeeded. A store that it may end in
-- is a `candidate`, and `steps` has the names of its steps.
pub record Origin (C R X : Type 0) : Type 1 where
  pub main_evidence : Evidence
  pub backup_evidence : Evidence
  pub store : Store
  pub resource : String → X
  pub candidate : Store → Type 0
  pub steps : List String
  pub within : Option C → Option R → String → X → X → Type 0
  pub applied : Option C → Option R → String → X → X → Type 0

-- The compensation is the old store with another generation.
abbrev pub IsPrior : Store → Option Store → Type 0
IsPrior before none = Unit
IsPrior before (some st) = (g : ℕ) × (st ≡ record before { generation = g })

-- Nothing is moved aside.
abbrev pub IsTidy : Area → Area → Type 0
IsTidy main backup = (main.claimed ≡ absent) × (backup.claimed ≡ absent)

abbrev list_of_result {ℓ} : {A : Type ℓ} → Result (List A) → List A
list_of_result (ok xs) = xs
list_of_result (err e) = []

module _ {C R T X J : Type 0} (h : Host C R T X J) (o : Origin C R X) where
  -- The evidence of the compensation, as a list of one, where it has a text.
  abbrev pub evidence_list : Option Store → List Evidence
  evidence_list c = list_of_result (compensation_evidence h c)

  abbrev pub main_list : Option Store → List Evidence
  main_list c = o.main_evidence ∷ evidence_list c

  abbrev pub backup_list : String → Option Store → List Evidence
  backup_list digest c = o.backup_evidence ∷ evidence_of digest ∷ evidence_list c

  -- The resources: each can be restored, and is as it was unless a step touched it.
  abbrev pub Slots : Option C → Option R → List Step → (String → X) → Type 0
  Slots core resources steps world =
      (name : String)
      → o.within core resources name (o.resource name) (world name)
        × (touched name steps ≡ false → world name ≡ o.resource name)

  -- The main file is the old one or the compensation, the backup perhaps the candidate, and the
  -- resources can be restored.
  pub record Undoable (digest : String) (c : Option Store) (core : Option C) (resources : Option R)
      (steps : List Step) (main backup : Area) (world : String → X) : Type 0 where
    pub main_held : HeldArea h.content_digest (main_list c) main
    pub backup_held : HeldArea h.content_digest (backup_list digest c) backup
    pub slots : Slots core resources steps world

  abbrev pub UndoableOf : TransitionRecord C R → Area → Area → (String → X) → Type 0
  UndoableOf r main backup world =
      Undoable r.candidate_digest r.compensation r.core r.resources r.steps main backup world

  -- Every step succeeded, and the resources of no step are as they were.
  abbrev pub AllApplied : Option C → Option R → List Step → (String → X) → Type 0
  AllApplied core resources steps world =
      All (λ s. o.applied core resources s.name (o.resource s.name) (world s.name)) steps
      × ((name : String) → contains o.steps name ≡ false → world name ≡ o.resource name)

  -- Both files are the candidate; the old main file may still be there, moved aside.
  abbrev pub NewFiles : String → Area → Area → Type 0
  NewFiles digest main backup =
      FileIn h.content_digest (evidence_of digest ∷ []) main.file
      × FileIn h.content_digest (evidence_of digest ∷ []) backup.file
      × (backup.claimed ≡ absent)

  -- By the phase of the record on the disk.
  abbrev pub Pending : Phase → TransitionRecord C R → Area → Area → (String → X) → Type 0
  Pending applying r main backup world = UndoableOf r main backup world
  Pending compensating r main backup world = UndoableOf r main backup world
  Pending committing r main backup world =
      AllApplied r.core r.resources r.steps world
      × (UndoableOf r main backup world ⊎ NewFiles r.candidate_digest main backup)
  Pending committed r main backup world =
      AllApplied r.core r.resources r.steps world × NewFiles r.candidate_digest main backup
  Pending (other_phase p) r main backup world = ⊥

  -- The digest of the text of a candidate.
  abbrev pub IsNewDigest : String → Type 0
  IsNewDigest digest =
      (st : Store) × o.candidate st
      × (text : List ℕ) × (encoded_store h st ≡ ok text)
      × (h.content_digest text ≡ digest)

  -- The record is about this transaction.
  pub record IsOwn (main_evidence backup_evidence : Evidence) (before : Store) (c : Option Store)
      (digest : String) (steps : List Step) : Type 0 where
    pub same_main : main_evidence ≡ o.main_evidence
    pub same_backup : backup_evidence ≡ o.backup_evidence
    pub same_before : before ≡ o.store
    pub prior : IsPrior o.store c
    pub new_digest : IsNewDigest digest
    pub own_steps : names_of steps ≡ o.steps

  abbrev pub IsOwnRecord : TransitionRecord C R → Type 0
  IsOwnRecord r =
      IsOwn r.before_main r.before_backup r.before r.compensation r.candidate_digest r.steps

  abbrev pub IsExactly : Evidence → Area → Type 0
  IsExactly e a = (a.claimed ≡ absent) × FileIn h.content_digest (e ∷ []) a.file

  -- The transaction did nothing: the resources are as they were, and the files are, or they both
  -- are the old store with another generation.
  abbrev pub IsRestored : Area → Area → (String → X) → Type 0
  IsRestored main backup world =
      ((name : String) → world name ≡ o.resource name)
      × ((IsExactly o.main_evidence main × IsExactly o.backup_evidence backup)
          ⊎ ((g : ℕ) × (text : List ℕ) × (encoded_store h (record o.store { generation = g })
                ≡ ok text)
              × IsExactly (evidence_of (h.content_digest text)) main
              × IsExactly (evidence_of (h.content_digest text)) backup))

  -- The transaction did everything: the files are its candidate, its steps succeeded, and
  -- no other resource changed.
  abbrev pub IsDone : Area → Area → (String → X) → Type 0
  IsDone main backup world =
      (r : TransitionRecord C R) × IsOwnRecord r
      × AllApplied r.core r.resources r.steps world
      × IsExactly (evidence_of r.candidate_digest) main
      × IsExactly (evidence_of r.candidate_digest) backup

  abbrev pub IsAtomic : Area → Area → (String → X) → Type 0
  IsAtomic main backup world = IsRestored main backup world ⊎ IsDone main backup world

  -- By the record on the disk.
  abbrev pub Sound : RecordFile J → Area → Area → (String → X) → Type 0
  Sound no_record main backup world = IsAtomic main backup world
  Sound unreadable_record main backup world = ⊥
  Sound (record_text text) main backup world =
      (r : TransitionRecord C R) × (h.parse_record text ≡ some r)
      × IsOwnRecord r
      × Pending r.phase r main backup world

  abbrev pub IsSound : Machine X J → Type 0
  IsSound m = Sound m.journal m.main m.backup m.world

  -- What a compensation starts from, whichever record is on the disk.
  abbrev pub IsReady : TransitionRecord C R → Machine X J → Type 0
  IsReady r m = IsSound m × IsOwnRecord r × UndoableOf r m.main m.backup m.world

  -- This record on the disk, and nothing moved aside.
  abbrev pub IsLogged : TransitionRecord C R → Machine X J → Type 0
  IsLogged r m =
      (m.journal ≡ record_text (h.write_record r))
      × IsOwnRecord r
      × Pending r.phase r m.main m.backup m.world
      × IsTidy m.main m.backup

-- What the transaction relies on: a record reads back as itself, a step of it leaves its resource such
-- that the plan can restore it, and a compensation of one that succeeds restores it. A transaction
-- without steps relies on the record alone.
module _ {C R T X J : Type 0} (h : Host C R T X J) (o : Origin C R X) where
  abbrev pub IsSafeUndo : Option C → Option R → String → Undo C R X → Type 0
  IsSafeUndo core resources name (checkpoint core1 resources1 x rest) =
      o.within core resources name (o.resource name) x
      × ((n : String) (x0 x1 : X)
          → o.within core resources n x0 x1
          → o.within core1 resources1 n x0 x1)
      × IsSafeUndo core1 resources1 name rest
  IsSafeUndo core resources name (undone x) =
      o.within core resources name (o.resource name) x × (x ≡ o.resource name)
  IsSafeUndo core resources name (broken x e) = o.within core resources name (o.resource name) x
  IsSafeUndo core resources name (cut_off x) = o.within core resources name (o.resource name) x

  abbrev pub IsExecuted : Option C → Option R → String → X × Ending Store → Type 0
  IsExecuted core resources name (x, returned st) =
      o.within core resources name (o.resource name) x
      × o.applied core resources name (o.resource name) x
      × o.candidate st
  IsExecuted core resources name (x, raised e) = o.within core resources name (o.resource name) x
  IsExecuted core resources name (x, stopped) = o.within core resources name (o.resource name) x

  pub record Laws : Type 0 where
    pub reads_back : (r : TransitionRecord C R) → h.parse_record (h.write_record r) ≡ some r
    pub executes :
        (i : ℕ) (p : MutationPlan C R T) (name : String) (x : X)
        → contains o.steps name ≡ true
        → o.within p.receipt.core p.receipt.resources name (o.resource name) x
        → IsExecuted p.receipt.core p.receipt.resources name (execute_on h i p name x)
    pub undoes :
        (i : ℕ) (app : Config) (r : TransitionRecord C R) (name : String) (x : X)
        → contains o.steps name ≡ true
        → o.within r.core r.resources name (o.resource name) x
        → IsSafeUndo r.core r.resources name (undo_on h i app r name x)
