-- ===== src/Store/Persist.antt =====
-- The state file and its backup: `loadStoreRaw`, `loadStoreBackup`, `decodeStore`,
-- `loadStoreWithRuntime` and `saveStore` (internal/manager/store.go), and `highestStoreGeneration`
-- (internal/manager/runtime_transition.go). Locks and the printed warnings are not modelled.
use proxyscene.Common.{
  Bool, List, Option, Result, [], bad_json, between, empty_file, eqb, err, false,
  generation_exhausted, if◌then◌else◌, length, ltb, missing_file, none, ok, reject_if, some,
  store_too_large, true, unreadable_file, write_failed, ℕ, ◌+◌, ◌-◌, ◌>>=◌, ◌>>◌, ◌^◌, ◌||◌, ◌∷◌,
}
use proxyscene.Config.{Config, RuntimeConfig, apply_runtime_overrides, apply_to}
use proxyscene.Config.Validate.{validate_runtime}
use proxyscene.Store.{Store, new_store}
use proxyscene.Store.Validate.{Checker, validate_store_semantics}

-- A path as `readRegularFileNoFollow` finds it: no file, one that it refuses or cannot read, or the
-- bytes of a regular file within the size limit.
pub data FileState : Type 0 where
  absent unreadable : FileState
  bytes : List ℕ → FileState

pub record Disk : Type 0 where
  pub main : FileState
  pub backup : FileState

-- `json.MarshalIndent` with the line feed behind it, and the strict `json.Decoder`: one value, no
-- unknown field, then the end of the input; `none` is an error.
pub record Codec : Type 0 where
  pub encode : Store → List ℕ
  pub decode : List ℕ → Option Store

-- The first byte behind the white space is an opening brace. `bytes.TrimSpace` drops more than
-- ASCII white space, but no JSON text begins with that.
unfoldable pub is_object : List ℕ → Bool
is_object [] = false
is_object (b ∷ rest) = if between 9 13 b || eqb b 32 then is_object rest else eqb b b'{'

-- `maxStoreBytes`
abbrev pub max_store_bytes : ℕ
max_store_bytes = 134217728

-- The backup in place of a main file that is missing: no backup either means a new store.
unfoldable pub or_new : Result Store → Result Store
or_new (ok st) = ok st
or_new (err missing_file) = ok new_store
or_new (err e) = err e

-- The backup in place of a main file that is empty or damaged.
unfoldable pub or_backup : Result Store → Result Store → Result Store
or_backup (ok st) backup = ok st
or_backup (err e) backup = backup

module _ (k : Checker) (j : Codec) where
  decoded : Option Store → Result (Store × Bool)
  decoded none = err bad_json
  decoded (some st) = validate_store_semantics k st

  -- `decodeStore`
  unfoldable pub decode_store : List ℕ → Result (Store × Bool)
  unfolding decoded is_object
  decode_store text = if is_object text then decoded (j.decode text) else err bad_json

  -- The reading of a file that is there.
  unfoldable pub read_store : List ℕ → Result Store
  read_store [] = err empty_file
  read_store (b ∷ rest) = do x ← decode_store (b ∷ rest); ok x.0

  -- `loadStoreBackup`
  unfoldable pub load_store_backup : FileState → Result Store
  unfolding read_store
  load_store_backup absent = err missing_file
  load_store_backup unreadable = err unreadable_file
  load_store_backup (bytes text) = read_store text

  load_main : FileState → Result Store → Result Store
  unfolding or_new or_backup read_store
  load_main absent backup = or_new backup
  load_main unreadable backup = err unreadable_file
  load_main (bytes text) backup = or_backup (read_store text) backup

  -- `loadStoreRaw`; `owned` is the outcome of `validateInstallationOwnership`.
  unfoldable pub load_store_raw : Result (Unit {0}) → Disk → Result Store
  unfolding load_main load_store_backup
  load_store_raw owned d = do owned; load_main d.main (load_store_backup d.backup)

-- The configuration that a process runs with: the stored one over its own, and its overrides over
-- both unless it restores the state at boot.
unfoldable pub resolve_runtime : Bool → Option RuntimeConfig → Config → Config
resolve_runtime allow_overrides stored process =
    let resolved = apply_to stored process in
    if allow_overrides then apply_runtime_overrides resolved process else resolved

-- `loadStoreWithRuntime`: the store, and the configuration that the process goes on with.
unfoldable pub load_store_with_runtime :
    Checker → Codec → Result (Unit {0}) → Bool → Config → Disk → Result (Store × Config)
unfolding resolve_runtime
load_store_with_runtime k j owned allow_overrides process d = do
  st ← load_store_raw k j owned d
  let resolved = resolve_runtime allow_overrides st.stored_config process
  validate_runtime k.platform (k.order resolved) resolved
  ok (st, resolved)

-- A write by `writeFileAtomic`: done, failed with the old file in place, or failed behind the
-- rename, at the sync of the directory, with the new file in place.
pub data Write : Type 0 where
  done failed_before failed_after : Write

unfoldable pub written : Write → List ℕ → FileState → FileState
written done text old = bytes text
written failed_before text old = old
written failed_after text old = bytes text

abbrev pub is_done : Write → Bool
is_done done = true
is_done failed_before = false
is_done failed_after = false

abbrev pub max_generation : ℕ
max_generation = 2 ^ 64 - 1

-- The second half: the backup first, then the main file, which is the commit point. The result
-- is the disk, the store in memory and the outcome.
unfoldable pub write_candidate :
    Codec → Write → Write → Disk → Store → Store → Disk × Store × Result (Unit {0})
unfolding written
write_candidate j first second d st candidate =
    let text = j.encode candidate in
    let d1 = record d { backup = written first text d.backup } in
    let d2 = record d1 { main = written second text d.main } in
    if is_done first
    then if is_done second then (d2, candidate, ok tt) else (d2, st, err write_failed)
    else (d1, st, err write_failed)

module _ (k : Checker) (j : Codec) where
  -- The generation of one file, if it is higher.
  unfoldable pub higher : ℕ → Result (Store × Bool) → ℕ
  higher generation (ok x) = if ltb generation x.0.generation then x.0.generation else generation
  higher generation (err e) = generation

  unfoldable pub file_generation : FileState → ℕ → Result ℕ
  unfolding higher
  file_generation absent generation = ok generation
  file_generation unreadable generation = err unreadable_file
  file_generation (bytes text) generation = ok (higher generation (decode_store k j text))

  -- `highestStoreGeneration`
  unfoldable pub highest_store_generation : Disk → Result ℕ
  unfolding file_generation
  highest_store_generation d = do g ← file_generation d.main 0; file_generation d.backup g

  -- The first half of `saveStore`: the candidate that is to be written.
  unfoldable pub next_candidate : Disk → Store → Result Store
  next_candidate d st = do
    highest ← highest_store_generation d
    let generation = if ltb st.generation highest then highest else st.generation
    reject_if (eqb generation max_generation) generation_exhausted
    x ← validate_store_semantics k (record st { generation = generation + 1 })
    reject_if (ltb max_store_bytes (length (j.encode x.0))) store_too_large
    ok x.0

  unfoldable pub save_candidate :
      Write → Write → Disk → Store → Result Store → Disk × Store × Result (Unit {0})
  unfolding write_candidate
  save_candidate first second d st (ok candidate) = write_candidate j first second d st candidate
  save_candidate first second d st (err e) = (d, st, err e)

  -- `saveStore`, outside a planned transaction.
  unfoldable pub save_store : Write → Write → Disk → Store → Disk × Store × Result (Unit {0})
  unfolding save_candidate next_candidate
  save_store first second d st = save_candidate first second d st (next_candidate d st)

-- `loadStore`
unfoldable pub load_store :
    Checker → Codec → Result (Unit {0}) → Config → Disk → Result (Store × Config)
unfolding load_store_with_runtime
load_store k j owned process d = load_store_with_runtime k j owned true process d

-- `loadStoreForBoot`
unfoldable pub load_store_for_boot :
    Checker → Codec → Result (Unit {0}) → Config → Disk → Result (Store × Config)
unfolding load_store_with_runtime
load_store_for_boot k j owned process d = load_store_with_runtime k j owned false process d
