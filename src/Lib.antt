-- ===== src/Lib.antt =====
-- Proxyscene manages an Xray core for three scenes, the global proxy, the development proxy and the
-- Telegram gateways, over one state file. This library models the manager in internal/manager: its
-- configuration, the state file with its validation and its crash-safe writes, the changes that the
-- commands make to the state, and the transaction that carries a change to the file and the host.
--
-- The parts, and the files that model them:
--   Common: lists, texts, maps and Go's int, the errors, and lemmas on them. Go's `(T, error)` is
--     `Result`, with one constructor of `Error` for each place that makes an error.
--   Platform: the Go packages net, net/url and crypto/sha256, as an interface.
--   Systemd: names of users and of systemd units (internal/manager/util.go).
--   Text: the cleaning of display texts (internal/manager/store.go, node.go).
--   Links: `prepareStoredNode` and `prepareNode` (internal/manager/node.go) over an interface for the
--     parsers of the protocols.
--   Config: `Config`, `RuntimeConfig`, `DefaultConfig` and `ValidateRuntime`
--     (internal/manager/types.go). Config/Env reads the environment, Config/Validate checks,
--     Config/Accepts and Config/Ports are about the checks, Config/RoundTrip about the comparison.
--   Store: `Store` and its reads (internal/manager/types.go, store.go). Store/Validate is
--     `validateStoreSemantics`, Store/Valid the predicate that it decides, and Store/CheckParts,
--     Store/CheckNodes and Store/Checked relate the two. Store/Persist is `loadStoreRaw`,
--     `saveStore` and `highestStoreGeneration`, with Store/Crash, Store/Generation and
--     Store/Resolve about them. Store/Runtime compares the process with the store.
--   Transition: the transaction of `commitStoreMutation` (internal/manager/runtime_transition.go,
--     runtime_transition_store.go): the machine that it works on, and the faults that an effect may
--     meet. Transition/Files is about the files of the store, Transition/Receipt about the record of
--     the transaction, Transition/Planning makes the plan, Transition/Commit is
--     `commitPlannedStoreMutation` from the plan on, Transition/Compensate undoes and recovers.
--     Transition/Sound is the invariant; Transition/Outcomes, Areas, Settle, Stable, Writes and Slots
--     are the rules for calls and the lemmas for it, Restore, Finish and Compensated follow the
--     compensation, Recovered the recovery, Steps, Stored, Committed, Atomic, Plans and Planned the
--     commit. Transition/Metadata is about mutations that no runtime follows, Transition/Generations
--     about the generation of a candidate.
--     Transition/Checked and Refused are about the record and a pending one, Fine and Completes about
--     a disk without faults.
--   Nodes: the changes of internal/manager/node.go to a store, with Nodes/Speed for speed results.
--   Subscriptions: the selection of a saved subscription, the adoption of nodes, and with
--     Subscriptions/Reconcile `reconcileSubscriptions` (internal/manager/subscription.go,
--     subscription_adopt.go, subscription_identity.go).
--   Update: the order of versions (internal/manager/update_release.go).
--   Dev: the restoration of a key of git (internal/manager/dev.go), with Dev/Rounds about one round of
--     its loop, Dev/Resume about one call, Dev/Accepted about a new plan, Dev/Restarts about calls one after the other, and
--     Dev/Refused about a plan that the backup does not take. What the commands of git do to the
--     values, and the other fields of the backup, are an interface. Dev/Managed is about the values
--     that the program has written, Dev/Npm has the comparisons of the values of npm.
--   Examples: concrete stores, disks and configurations, and the theorems applied to them.
--
-- How the source is read. A Go map is an association list, and a nil map the empty one. Go ranges
-- over a map in any order: where the order matters the model takes it as an argument. A store is a
-- value, so copies and restores of a store are the identity, and a change that fails returns no
-- store, since its caller drops the copy that it worked on. A time is a number, and the deadline of
-- the validation is a function of the position in the list of nodes. Texts are valid UTF-8.
-- The JSON codec is an interface: what the theorems need of it is a hypothesis on the text that is
-- written. An atomic write has three outcomes: done, failed with the old file in place, or failed
-- behind the rename with the new one in place.
--
-- A call of the transaction takes a machine to a machine and an ending: a value, an error, or the
-- process stopped. Each effect of the disk asks a schedule of faults, which is arbitrary: it goes
-- well, fails at a stage, or stops there. So the theorems on the transaction hold wherever the
-- process stops. The plans of the core, of the scenes and of the Telegram targets, with
-- their execution and their compensation, are an interface (`Host`), and what the transaction relies
-- on is `Laws`. No code here meets the laws about the steps, and a mutation without a synchronisation,
-- which has no steps, needs none of them. Each step changes a resource of its own. The record of the transaction is a text of
-- any type with a codec. Other writers of the files are not modelled, though the checks against them
-- are. The store in memory comes back with a success only.
--
-- Bounds. The loops on fuel are those which draw an ID, with one draw more than there are nodes, or
-- IDs taken, which is enough when the draws differ, and the restoration of a key of git, with a round
-- for each value and two more: one removes the old values, one sees that the plan is done.
-- A generation is a natural number, and the source's own check keeps it within 64 bits.
--
-- Not modelled: locks, processes, network, files of users, systemd, menus and printed texts; the
-- development proxy but for this restoration and the managed values; the execution and the
-- compensation of the core and of the scenes; of the
-- transaction `preflightInstallation`, the files that show the ownership of a scene, and a swap over a
-- file that was moved aside before the call.
pub mod Common
pub mod Platform
pub mod Systemd
pub mod Text
pub mod Links
pub mod Store
pub mod Transition
pub mod Config
pub mod Nodes
pub mod Subscriptions
pub mod Update
pub mod Dev
pub mod Examples
